-- ===== src/Server/Shutdown.antt =====
-- server.js: `gracefulShutdown` and the handlers of signals. Times are in milliseconds.
use helloplanbuddy_cmd_plan.Base.{
  ℕ, ◌+◌, min, Option, none, some, List, [], ◌∷◌, ltb, if◌then◌else◌,
}
use helloplanbuddy_cmd_plan.Server.Startup.{Call, resolves, rejects, hangs}

abbrev pub shutdown_timeout_ms : ℕ
shutdown_timeout_ms = 60000

abbrev pub request_drain_timeout_ms : ℕ
request_drain_timeout_ms = 30000

abbrev pub queue_drain_timeout_ms : ℕ
queue_drain_timeout_ms = 30000

abbrev pub redis_close_timeout_ms : ℕ
redis_close_timeout_ms = 10000

abbrev pub db_close_timeout_ms : ℕ
db_close_timeout_ms = 10000

-- What is closed: the calls that the phases wait for, and when the HTTP server has closed, if it does.
-- A call that is missing is of a module that is not there.
pub record Closing : Type 0 where
  pub server_closed : Option ℕ
  pub bcrypt_queue : Option Call
  pub queues : Option Call
  pub rate_limit_redis : Option Call
  pub cache_redis : Option Call
  pub queue_redis : Option Call
  pub database : Option Call

-- When a call that is awaited under `try` is over; none is never.
abbrev pub over : ℕ → Call → Option ℕ
over t (resolves d) = some (t + d)
over t (rejects d) = some (t + d)
over t hangs = none

-- One more of the calls of a phase, after those before it.
abbrev pub then_call : Option ℕ → Option Call → Option ℕ
then_call none c = none
then_call (some t) none = some t
then_call (some t) (some c) = over t c

-- `drainQueues`, `closeRedis` and `closeDatabase`, from their start.
unfoldable pub drain_queues : Closing → Option ℕ
drain_queues c = then_call (then_call (some 0) c.bcrypt_queue) c.queues

unfoldable pub close_redis : Closing → Option ℕ
close_redis c =
    then_call (then_call (then_call (some 0) c.rate_limit_redis) c.cache_redis) c.queue_redis

unfoldable pub close_database : Closing → Option ℕ
close_database c = then_call (some 0) c.database

-- `Promise.race` with a timer.
abbrev pub within : ℕ → Option ℕ → ℕ
within limit none = limit
within limit (some t) = min t limit

-- The phases of a shutdown, each with the time at which it is over.
pub record Report : Type 0 where
  pub requests_drained_at : ℕ
  pub queues_drained_at : ℕ
  pub redis_closed_at : ℕ
  pub exits_at : ℕ
  pub exit_code : ℕ

unfoldable pub run_phases : Closing → ℕ → Report
run_phases c now =
    let t1 = now + within request_drain_timeout_ms c.server_closed in
    let t2 = t1 + within queue_drain_timeout_ms (drain_queues c) in
    let t3 = t2 + within redis_close_timeout_ms (close_redis c) in
    record {
      requests_drained_at = t1;
      queues_drained_at = t2;
      redis_closed_at = t3;
      exits_at = t3 + within db_close_timeout_ms (close_database c);
      exit_code = 0;
    }

-- The process: the shutdown that was begun, and the exit that is due, as a time and a code.
pub record Process : Type 0 where
  pub shutdown : Option Report
  pub exit : Option (ℕ × ℕ)

-- The exit that comes first ends the process.
abbrev pub sooner : ℕ → ℕ → Option (ℕ × ℕ) → Option (ℕ × ℕ)
sooner t code none = some (t, code)
sooner t code (some (u, other)) = if ltb t u then some (t, code) else some (u, other)

abbrev pub begin_shutdown : Closing → ℕ → Process → Option Report → Process
begin_shutdown c now p (some r) = p
begin_shutdown c now p none =
    let r = run_phases c now in
    record { shutdown = some r; exit = sooner r.exits_at r.exit_code p.exit }

-- `gracefulShutdown`
unfoldable pub graceful_shutdown : Closing → ℕ → Process → Process
graceful_shutdown c now p = begin_shutdown c now p p.shutdown

-- The handlers of SIGTERM and SIGINT, of unhandled rejections and of uncaught exceptions.
pub data Event : Type 0 where
  sigterm sigint unhandled_rejection uncaught_exception : Event

unfoldable pub handle : Closing → Event → ℕ → Process → Process
handle c sigterm now p = graceful_shutdown c now p
handle c sigint now p = graceful_shutdown c now p
handle c unhandled_rejection now p = record p { exit = sooner (now + 100) 1 p.exit }
handle c uncaught_exception now p = record p { exit = sooner (now + 100) 1 p.exit }

unfoldable pub handle_all : Closing → List (Event × ℕ) → Process → Process
handle_all c [] p = p
handle_all c ((e, now) ∷ es) p = handle_all c es (handle c e now p)
