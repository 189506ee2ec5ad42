-- ===== src/Tests/Worker.antt =====
-- A poll of base-worker.js.
use helloplanbuddy_cmd_plan.Base.{
  ℕ, ◌-◌, ◌<◌, ◌≡◌, refl, true, false, none, some, List, [], ◌∷◌, arith, length,
}
use helloplanbuddy_cmd_plan.Engine.Jobs.{Job, processing, Failure, Draw}
use helloplanbuddy_cmd_plan.Worker.Lifecycle.{World, succeeds, loses_commit, stop}
use helloplanbuddy_cmd_plan.Worker.Draining.{Finished, end_all, drain_completes}
use helloplanbuddy_cmd_plan.Queues.{webhook_events}
use helloplanbuddy_cmd_plan.Adaptive.{init}
use helloplanbuddy_cmd_plan.Worker.{Worker}

abbrev busy : Worker
busy = record {
  key = webhook_events;
  worker = 7;
  shard_keys = [];
  region = 1;
  running = true;
  draining = false;
  active_slots = 8;
  poll_wakeups = 0;
  rate_limit_hits = 0;
}

abbrev item : Job
item = record {
  id = 1;
  status = processing;
  leased_by = some 7;
  lease_expires_at = some 90;
  lease_version = 1;
  attempt_count = 0;
  run_after = none;
  priority = 0;
  created_at = 0;
  updated_at = 0;
  processed_at = none;
  shard_key = 0;
  region_id = 1;
  error = none;
  error_stack = none;
  result = none;
}

abbrev broken : Failure
broken = record { message = 3; stack = none; force_dead_letter = false }

abbrev draw : Draw
draw = record { clock = 50; num = 0; den = 1 }

-- Two items: one succeeds, and the commit of the other one throws.
abbrev endings : List Finished
endings =
    record { job = item; draw = draw; now = 60; ending = succeeds none }
    ∷ record { job = item; draw = draw; now = 70; ending = loses_commit broken }
    ∷ []

abbrev world : World
world = record {
  jobs = item ∷ [];
  slot = init webhook_events;
  running = record {
    worker = record busy { active_slots = 2 };
    notify_wakeups = 0;
    items_processed = 0;
    items_failed = 0;
    waiting_drains = 0;
    resolved_drains = 0;
  };
}

drain_completes_example :
    let r = (end_all endings (record world { running = stop world.running })).running in
    (r.worker.active_slots ≡ 2 - 2)
    × (length endings < 2 → (r.waiting_drains ≡ 1) × (r.resolved_drains ≡ 0))
    × (◌≡◌ {A = ℕ} 2 2 → (r.waiting_drains ≡ 0) × (r.resolved_drains ≡ 1))
drain_completes_example = drain_completes endings world (omega arith) refl
