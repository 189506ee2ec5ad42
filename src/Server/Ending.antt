-- ===== src/Server/Ending.antt =====
-- How a shutdown of the server ends.
use helloplanbuddy_cmd_plan.Base.{
  ℕ, ◌+◌, ◌≤◌, ◌<◌, ◌≡◌, refl, Bool, true, false, Option, none, some, List, [], ◌∷◌, arith, leb,
}
use helloplanbuddy_cmd_plan.Server.Startup.{hangs}
use helloplanbuddy_cmd_plan.Server.Shutdown.{
  Closing, then_call, drain_queues, close_redis, within, Report, run_phases, Process, sooner,
  begin_shutdown, graceful_shutdown, Event, sigterm, sigint, unhandled_rejection,
  uncaught_exception, handle, handle_all, shutdown_timeout_ms,
}

within_le : (limit : ℕ) (t : Option ℕ) → within limit t ≤ limit
within_le limit none = omega arith
within_le limit (some t) = omega arith

phases_le : (c : Closing) (now : ℕ) → (run_phases c now).exits_at ≤ now + 80000
unfolding run_phases
phases_le c now = omega (
  arith,
  within_le 30000 c.server_closed,
  within_le 30000 (drain_queues c),
  within_le 10000 (close_redis c),
  within_le 10000 _,
)

-- The exit is due by a time.
abbrev exits_by : ℕ → Option (ℕ × ℕ) → Bool
exits_by t none = false
exits_by t (some (u, code)) = leb u t

sooner_by :
    (limit t code : ℕ) (e : Option (ℕ × ℕ))
    → exits_by limit e ≡ true
    → exits_by limit (sooner t code e) ≡ true
sooner_by limit t code none h = cc
sooner_by limit t code (some (u, other)) h = ground (arith, h)

sooner_self :
    (limit t code : ℕ) (e : Option (ℕ × ℕ)) → t ≤ limit → exits_by limit (sooner t code e) ≡ true
sooner_self limit t code none h = ground (arith, h)
sooner_self limit t code (some (u, other)) h = ground (arith, h)

begin_by :
    (c : Closing) (limit now : ℕ) (p : Process) (s : Option Report)
    → exits_by limit p.exit ≡ true
    → exits_by limit (begin_shutdown c now p s).exit ≡ true
begin_by c limit now p none h = sooner_by limit _ _ p.exit h
begin_by c limit now p (some r) h = h

handle_by :
    (c : Closing) (limit : ℕ) (e : Event) (now : ℕ) (p : Process)
    → exits_by limit p.exit ≡ true
    → exits_by limit (handle c e now p).exit ≡ true
unfolding handle graceful_shutdown
handle_by c limit sigterm now p h = begin_by c limit now p p.shutdown h
handle_by c limit sigint now p h = begin_by c limit now p p.shutdown h
handle_by c limit unhandled_rejection now p h = sooner_by limit _ _ p.exit h
handle_by c limit uncaught_exception now p h = sooner_by limit _ _ p.exit h

all_by :
    (c : Closing) (limit : ℕ) (es : List (Event × ℕ)) (p : Process)
    → exits_by limit p.exit ≡ true
    → exits_by limit (handle_all c es p).exit ≡ true
unfolding handle_all
all_by c limit [] p h = h
all_by c limit ((e, now) ∷ es) p h =
    all_by c limit es (handle c e now p) (handle_by c limit e now p h)

begin_kept :
    (c : Closing) (r : Report) (now : ℕ) (p : Process) (s : Option Report)
    → s ≡ some r
    → p.shutdown ≡ some r
    → (begin_shutdown c now p s).shutdown ≡ some r
begin_kept c r now p none h k = cc
begin_kept c r now p (some other) h k = k

kept_shutdown :
    (c : Closing) (r : Report) (e : Event) (now : ℕ) (p : Process)
    → p.shutdown ≡ some r
    → (handle c e now p).shutdown ≡ some r
unfolding handle graceful_shutdown
kept_shutdown c r sigterm now p h = begin_kept c r now p p.shutdown h h
kept_shutdown c r sigint now p h = begin_kept c r now p p.shutdown h h
kept_shutdown c r unhandled_rejection now p h = h
kept_shutdown c r uncaught_exception now p h = h

kept_all :
    (c : Closing) (r : Report) (es : List (Event × ℕ)) (p : Process)
    → p.shutdown ≡ some r
    → (handle_all c es p).shutdown ≡ some r
unfolding handle_all
kept_all c r [] p h = h
kept_all c r ((e, now) ∷ es) p h = kept_all c r es (handle c e now p) (kept_shutdown c r e now p h)

exit_of :
    (limit : ℕ) (e : Option (ℕ × ℕ))
    → exits_by limit e ≡ true
    → (x : ℕ × ℕ) × (e ≡ some x) × (x.0 ≤ limit)
exit_of limit none h = cc
exit_of limit (some x) h = (x, refl, ground (arith, h))

ends_after :
    (c : Closing) (now : ℕ) (es : List (Event × ℕ)) (p : Process) (s : Option Report)
    → s ≡ none
    → let q = handle_all c es (begin_shutdown c now p s) in
      (q.shutdown ≡ some (run_phases c now))
      × ((x : ℕ × ℕ) × (q.exit ≡ some x) × (x.0 ≤ now + 80000))
unfolding run_phases
ends_after c now es p (some r) h = absurd (ground arith)
ends_after c now es p none h =
    let due = sooner_self (now + 80000) _ 0 p.exit (phases_le c now) in
    let q = begin_shutdown c now p none in
    (
      kept_all c (run_phases c now) es q refl,
      exit_of (now + 80000) (handle_all c es q).exit (all_by c (now + 80000) es q due),
    )

abbrev pub is_signal : Event → Bool
is_signal sigterm = true
is_signal sigint = true
is_signal unhandled_rejection = false
is_signal uncaught_exception = false

-- After the first signal, SIGTERM or SIGINT, the process exits within 80 seconds, whatever hangs or
-- fails and whatever signals and failures follow, and no later signal begins a second shutdown.
pub shutdown_ends :
    (c : Closing) (signal : Event) (now : ℕ) (es : List (Event × ℕ)) (p : Process)
    → is_signal signal ≡ true
    → p.shutdown ≡ none
    → let q = handle_all c es (handle c signal now p) in
      (q.shutdown ≡ some (run_phases c now))
      × ((x : ℕ × ℕ) × (q.exit ≡ some x) × (x.0 ≤ now + 80000))
unfolding handle graceful_shutdown
shutdown_ends c sigterm now es p s h = ends_after c now es p p.shutdown h
shutdown_ends c sigint now es p s h = ends_after c now es p p.shutdown h
shutdown_ends c unhandled_rejection now es p s h = absurd (ground (arith, s))
shutdown_ends c uncaught_exception now es p s h = absurd (ground (arith, s))

drain_hangs : (start : Option ℕ) → then_call start (some hangs) ≡ none
drain_hangs none = refl
drain_hangs (some t) = refl

-- If connections stay open and the queues and the first Redis client hang, the phases take 70 seconds
-- and more, although the timeout of the whole shutdown is declared as 60 seconds.
pub timeout_exceeded :
    (c : Closing) (now : ℕ)
    → c.server_closed ≡ none
    → c.queues ≡ some hangs
    → c.rate_limit_redis ≡ some hangs
    → now + shutdown_timeout_ms < (run_phases c now).exits_at
unfolding run_phases drain_queues close_redis
timeout_exceeded c now hs hq hr =
    rw (hs, hq, hr, drain_hangs (then_call (some 0) c.bcrypt_queue)) (omega arith)
