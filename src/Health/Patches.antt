-- ===== src/Health/Patches.antt =====
-- queueReliabilityState.js: `updatePartial`, `setState`, `resetForTests` and `getSnapshot`. A patch has a
-- value for each field that it sets; patched values are of the types that the mutators write.
use helloplanbuddy_cmd_plan.Base.{ℕ, Bool, Option, none, some, List, [], ◌∷◌, if◌then◌else◌}
use helloplanbuddy_cmd_plan.Base.Text.{Store, lookup, insert}
use helloplanbuddy_cmd_plan.Health.{
  Redis, Queues, Scheduler, Worker, Backlog, State, default_state, worker_or_new, compute_status,
  Status,
}

pub record RedisPatch : Type 0 where
  pub connected : Option Bool
  pub last_connected_at : Option (Option ℕ)
  pub last_disconnected_at : Option (Option ℕ)
  pub last_error : Option (Option ℕ)
  pub circuit_open : Option Bool

pub record QueuesPatch : Type 0 where
  pub initialized : Option Bool
  pub last_init_at : Option (Option ℕ)
  pub init_errors : Option (List ℕ)

pub record SchedulerPatch : Type 0 where
  pub active : Option Bool
  pub last_heartbeat : Option (Option ℕ)
  pub last_error : Option (Option ℕ)

pub record WorkerPatch : Type 0 where
  pub active : Option Bool
  pub last_heartbeat : Option (Option ℕ)
  pub last_job_at : Option (Option ℕ)
  pub last_error : Option (Option ℕ)

pub record BacklogPatch : Type 0 where
  pub total : Option ℕ
  pub worst_queue : Option (Option ℕ)
  pub worst_depth : Option ℕ
  pub degraded : Option Bool
  pub last_updated_at : Option (Option ℕ)
  pub last_error : Option (Option ℕ)

pub record Patch : Type 0 where
  pub redis : Option RedisPatch
  pub queues : Option QueuesPatch
  pub scheduler : Option SchedulerPatch
  pub workers : Store WorkerPatch
  pub backlog : Option BacklogPatch

-- `Object.assign` on one field, and on one part of the state.
abbrev pub assign {ℓ} : {A : Type ℓ} → A → Option A → A
assign old none = old
assign old (some new) = new

abbrev pub assign_part {ℓ κ} : {A : Type ℓ} {P : Type κ} → (A → P → A) → A → Option P → A
assign_part f old none = old
assign_part f old (some p) = f old p

abbrev pub patch_redis : Redis → RedisPatch → Redis
patch_redis r p = record {
  connected = assign r.connected p.connected;
  last_connected_at = assign r.last_connected_at p.last_connected_at;
  last_disconnected_at = assign r.last_disconnected_at p.last_disconnected_at;
  last_error = assign r.last_error p.last_error;
  circuit_open = assign r.circuit_open p.circuit_open;
}

abbrev pub patch_queues : Queues → QueuesPatch → Queues
patch_queues q p = record {
  initialized = assign q.initialized p.initialized;
  last_init_at = assign q.last_init_at p.last_init_at;
  init_errors = assign q.init_errors p.init_errors;
}

abbrev pub patch_scheduler : Scheduler → SchedulerPatch → Scheduler
patch_scheduler s p = record {
  active = assign s.active p.active;
  last_heartbeat = assign s.last_heartbeat p.last_heartbeat;
  last_error = assign s.last_error p.last_error;
}

abbrev pub patch_worker : Worker → WorkerPatch → Worker
patch_worker w p = record {
  active = assign w.active p.active;
  last_heartbeat = assign w.last_heartbeat p.last_heartbeat;
  last_job_at = assign w.last_job_at p.last_job_at;
  last_error = assign w.last_error p.last_error;
}

abbrev pub patch_backlog : Backlog → BacklogPatch → Backlog
patch_backlog b p = record {
  total = assign b.total p.total;
  worst_queue = assign b.worst_queue p.worst_queue;
  worst_depth = assign b.worst_depth p.worst_depth;
  degraded = assign b.degraded p.degraded;
  last_updated_at = assign b.last_updated_at p.last_updated_at;
  last_error = assign b.last_error p.last_error;
}

unfoldable pub patch_workers : Store WorkerPatch → Store Worker → Store Worker
patch_workers [] m = m
patch_workers ((name, p) ∷ ps) m =
    patch_workers ps (insert name (patch_worker (worker_or_new (lookup name m)) p) m)

-- `updatePartial`, and `setState`, which calls it.
unfoldable pub update_partial : Patch → State → State
update_partial p s = record {
  redis = assign_part patch_redis s.redis p.redis;
  queues = assign_part patch_queues s.queues p.queues;
  scheduler = assign_part patch_scheduler s.scheduler p.scheduler;
  workers = patch_workers p.workers s.workers;
  backlog = assign_part patch_backlog s.backlog p.backlog;
}

abbrev pub set_state : Patch → State → State
set_state p s = update_partial p s

abbrev pub reset_for_tests : State → State
reset_for_tests s = default_state

-- What `getSnapshot` returns, as a patch.
abbrev pub worker_snapshot : Worker → WorkerPatch
worker_snapshot w = record {
  active = some w.active;
  last_heartbeat = some w.last_heartbeat;
  last_job_at = some w.last_job_at;
  last_error = some w.last_error;
}

unfoldable pub worker_snapshots : Store Worker → Store WorkerPatch
worker_snapshots [] = []
worker_snapshots ((name, w) ∷ m) = (name, worker_snapshot w) ∷ worker_snapshots m

unfoldable pub get_snapshot : State → Patch
get_snapshot s = record {
  redis = some (record {
    connected = some s.redis.connected;
    last_connected_at = some s.redis.last_connected_at;
    last_disconnected_at = some s.redis.last_disconnected_at;
    last_error = some s.redis.last_error;
    circuit_open = some s.redis.circuit_open;
  });
  queues = some (record {
    initialized = some s.queues.initialized;
    last_init_at = some s.queues.last_init_at;
    init_errors = some s.queues.init_errors;
  });
  scheduler = some (record {
    active = some s.scheduler.active;
    last_heartbeat = some s.scheduler.last_heartbeat;
    last_error = some s.scheduler.last_error;
  });
  workers = worker_snapshots s.workers;
  backlog = some (record {
    total = some s.backlog.total;
    worst_queue = some s.backlog.worst_queue;
    worst_depth = some s.backlog.worst_depth;
    degraded = some s.backlog.degraded;
    last_updated_at = some s.backlog.last_updated_at;
    last_error = some s.backlog.last_error;
  });
}

-- healthController.js: the answer of `ready`, given whether the database answers.
pub data Readiness : Type 0 where
  not_ready : Readiness
  reported : Status → Readiness

unfoldable pub ready : Bool → ℕ → State → ℕ × Readiness
ready database_up ts s =
    if database_up then (200, reported (compute_status 60000 1000 ts s)) else (503, not_ready)
