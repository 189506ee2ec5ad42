-- ===== src/Health.antt =====
-- planbuddy_v9/utils/queueReliabilityState.js: the health of the queues. Errors and queue names are
-- numbers that are only passed on, and times are in milliseconds.
pub mod Silence
pub mod Patches
pub mod Restoring
pub mod Scheduling
pub mod Marking
use helloplanbuddy_cmd_plan.Base.{
  ℕ, ◌+◌, Bool, true, false, not, ◌&&◌, ◌||◌, Option, none, some, List, [], ◌∷◌, ◌++◌, leb,
  if◌then◌else◌,
}
use helloplanbuddy_cmd_plan.Base.Text.{Text, Store, lookup, insert}

pub record Redis : Type 0 where
  pub connected : Bool
  pub last_connected_at : Option ℕ
  pub last_disconnected_at : Option ℕ
  pub last_error : Option ℕ
  pub circuit_open : Bool

pub record Queues : Type 0 where
  pub initialized : Bool
  pub last_init_at : Option ℕ
  pub init_errors : List ℕ

pub record Scheduler : Type 0 where
  pub active : Bool
  pub last_heartbeat : Option ℕ
  pub last_error : Option ℕ

pub record Worker : Type 0 where
  pub active : Bool
  pub last_heartbeat : Option ℕ
  pub last_job_at : Option ℕ
  pub last_error : Option ℕ

pub record Backlog : Type 0 where
  pub total : ℕ
  pub worst_queue : Option ℕ
  pub worst_depth : ℕ
  pub degraded : Bool
  pub last_updated_at : Option ℕ
  pub last_error : Option ℕ

pub record State : Type 0 where
  pub redis : Redis
  pub queues : Queues
  pub scheduler : Scheduler
  pub workers : Store Worker
  pub backlog : Backlog

unfoldable pub default_state : State
default_state = record {
  redis = record {
    connected = false;
    last_connected_at = none;
    last_disconnected_at = none;
    last_error = none;
    circuit_open = false;
  };
  queues = record { initialized = false; last_init_at = none; init_errors = [] };
  scheduler = record { active = false; last_heartbeat = none; last_error = none };
  workers = [];
  backlog = record {
    total = 0;
    worst_queue = none;
    worst_depth = 0;
    degraded = false;
    last_updated_at = none;
    last_error = none;
  };
}

abbrev pub new_worker : Worker
new_worker = record { active = false; last_heartbeat = none; last_job_at = none; last_error = none }

abbrev pub worker_or_new : Option Worker → Worker
worker_or_new none = new_worker
worker_or_new (some w) = w

-- A value that is null leaves the field.
abbrev pub keep_or_set : Option ℕ → Option ℕ → Option ℕ
keep_or_set old none = old
keep_or_set old (some v) = some v

-- The text 'circuit_open'.
abbrev pub circuit_open_error : ℕ
circuit_open_error = 1

abbrev pub error_or_circuit : Option ℕ → Option ℕ
error_or_circuit none = some circuit_open_error
error_or_circuit (some e) = some e

abbrev pub set_worker : Text → (Worker → Worker) → State → State
set_worker [] f s = s
set_worker (c ∷ name) f s = record s {
  workers = insert (c ∷ name) (f (worker_or_new (lookup (c ∷ name) s.workers))) s.workers;
}

-- The mutators, each with its arguments.
pub data Mark : Type 0 where
  redis_connected : Mark
  redis_disconnected : Option ℕ → Mark
  redis_circuit_open : Bool → Mark
  queue_initialized : Mark
  queue_init_error : ℕ → Mark
  scheduler_active : Mark
  scheduler_heartbeat : Mark
  scheduler_error : ℕ → Mark
  worker_heartbeat : Text → Bool → Option ℕ → Option ℕ → Mark
  worker_error : Text → ℕ → Mark
  backlog_updated : ℕ → Option ℕ → ℕ → Bool → Option ℕ → Mark

abbrev pub beat : ℕ → Scheduler → Scheduler
beat now r = record { active = true; last_heartbeat = some now; last_error = none }

unfoldable pub mark : Mark → ℕ → State → State
mark redis_connected now s = record s {
  redis = record {
    connected = true;
    last_connected_at = some now;
    last_disconnected_at = none;
    last_error = none;
    circuit_open = false;
  };
}
mark (redis_disconnected e) now s = record s {
  redis = record s.redis { connected = false; last_disconnected_at = some now; last_error = e };
}
mark (redis_circuit_open flag) now s = record s {
  redis = record s.redis {
    circuit_open = flag;
    last_error = if flag then error_or_circuit s.redis.last_error else s.redis.last_error;
  };
}
mark queue_initialized now s = record s {
  queues = record { initialized = true; last_init_at = some now; init_errors = [] };
}
mark (queue_init_error e) now s = record s {
  queues = record {
    initialized = false;
    last_init_at = some now;
    init_errors = s.queues.init_errors ++ (e ∷ []);
  };
}
mark scheduler_active now s = record s { scheduler = beat now s.scheduler }
mark scheduler_heartbeat now s = record s { scheduler = beat now s.scheduler }
mark (scheduler_error e) now s = record s {
  scheduler = record s.scheduler { active = false; last_error = some e };
}
mark (worker_heartbeat name active job e) now s =
    set_worker name
      (λ w. record {
        active = active;
        last_heartbeat = some now;
        last_job_at = keep_or_set w.last_job_at job;
        last_error = keep_or_set w.last_error e;
      })
      s
mark (worker_error name e) now s =
    set_worker name
      (λ w. record w { active = false; last_heartbeat = some now; last_error = some e }) s
mark (backlog_updated total worst depth degraded e) now s = record s {
  backlog = record {
    total = total;
    worst_queue = worst;
    worst_depth = depth;
    degraded = degraded;
    last_updated_at = some now;
    last_error = e;
  };
}

-- `typeof t === 'number' && ts - t <= staleAfterMs`
abbrev pub is_fresh : ℕ → ℕ → Option ℕ → Bool
is_fresh stale ts none = false
is_fresh stale ts (some t) = leb ts (t + stale)

abbrev pub worker_fresh : ℕ → ℕ → Worker → Bool
worker_fresh stale ts w = w.active && is_fresh stale ts w.last_heartbeat

unfoldable pub every_fresh : ℕ → ℕ → Store Worker → Bool
every_fresh stale ts [] = true
every_fresh stale ts ((name, w) ∷ m) = worker_fresh stale ts w && every_fresh stale ts m

abbrev pub workers_ok : ℕ → ℕ → Store Worker → Bool
workers_ok stale ts [] = false
workers_ok stale ts (w ∷ m) = every_fresh stale ts (w ∷ m)

pub data Health : Type 0 where
  green yellow red : Health

pub data Reason : Type 0 where
  redis_down workers_unhealthy scheduler_unhealthy queues_uninitialized backlog_degraded stable :
      Reason

pub record Status : Type 0 where
  pub ready : Bool
  pub health : Health
  pub reasons : List Reason

abbrev pub no_errors : List ℕ → Bool
no_errors [] = true
no_errors (e ∷ es) = false

abbrev pub because : Bool → Reason → List Reason
because b r = if b then r ∷ [] else []

-- The colour from what is bad: the hard issues first, then the others.
unfoldable pub judge : Bool → Bool → Bool → Bool → Bool → Status
judge bad_redis bad_workers bad_scheduler bad_queues bad_backlog =
    if bad_redis || (bad_workers || bad_scheduler)
    then record {
      ready = false;
      health = red;
      reasons =
          because bad_redis redis_down
          ++ (because bad_workers workers_unhealthy ++ because bad_scheduler scheduler_unhealthy);
    }
    else (if bad_queues || bad_backlog
        then record {
          ready = false;
          health = yellow;
          reasons = because bad_queues queues_uninitialized ++ because bad_backlog backlog_degraded;
        }
        else record { ready = true; health = green; reasons = stable ∷ [] })

-- `computeStatus`
unfoldable pub compute_status : ℕ → ℕ → ℕ → State → Status
compute_status stale warn_depth ts s =
    judge (not (s.redis.connected && not s.redis.circuit_open))
      (not (workers_ok stale ts s.workers))
      (not (s.scheduler.active && is_fresh stale ts s.scheduler.last_heartbeat))
      (not (s.queues.initialized && no_errors s.queues.init_errors))
      (s.backlog.degraded || leb warn_depth s.backlog.worst_depth)
