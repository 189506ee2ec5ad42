-- ===== src/Tests/Engine.antt =====
-- Runs of the job tables of atomic-engine.js.
use helloplanbuddy_cmd_plan.Base.{◌≡◌, refl, false, none, some, List, [], ◌∷◌, arith, All}
use helloplanbuddy_cmd_plan.Queues.{webhook_events}
use helloplanbuddy_cmd_plan.Engine.Table.{select}
use helloplanbuddy_cmd_plan.Engine.Jobs.{Job, pending, processing, processed, Failure, Draw}
use helloplanbuddy_cmd_plan.Engine.Claim.{Request, contains, ids, chosen}
use helloplanbuddy_cmd_plan.Engine.Claiming.{Distinct}
use helloplanbuddy_cmd_plan.Engine.Events.{Event, claims, reclaims, fails, step, run}
use helloplanbuddy_cmd_plan.Engine.Lifecycle.{IsSound, run-IsSound}
use helloplanbuddy_cmd_plan.Engine.Fencing.{NoEffect, zombie_harmless}

abbrev pub waiting : Job
waiting = record {
  id = 1;
  status = pending;
  leased_by = none;
  lease_expires_at = none;
  lease_version = 0;
  attempt_count = 0;
  run_after = none;
  priority = 5;
  created_at = 10;
  updated_at = 10;
  processed_at = none;
  shard_key = 3;
  region_id = 1;
  error = none;
  error_stack = none;
  result = none;
}

abbrev urgent : Job
urgent = record waiting { id = 2; priority = 9 }

abbrev held : Job
held = record waiting {
  id = 3;
  status = processing;
  leased_by = some 7;
  lease_expires_at = some 50;
  lease_version = 4;
}

abbrev finished : Job
finished = record waiting { id = 4; status = processed; lease_version = 2; result = some 8 }

abbrev pub table : List Job
table = waiting ∷ urgent ∷ held ∷ finished ∷ []

abbrev one_job : Request
one_job = record { key = webhook_events; batch_size = 1; worker = 7; shard_keys = []; region = 1 }

pub table-Distinct : Distinct (ids table)
unfolding contains
table-Distinct = (refl, (refl, (refl, (refl, tt))))

claims_urgent : chosen one_job 20 [] table ≡ 2 ∷ []
unfolding chosen select contains
claims_urgent = refl

abbrev draw : Draw
draw = record { clock = 60; num = 1; den = 2 }

abbrev crash : Failure
crash = record { message = 1; stack = none; force_dead_letter = false }

abbrev late_calls : List Event
late_calls = claims one_job none 61 61 [] ∷ fails 3 7 4 0 draw 62 crash ∷ reclaims 63 0 ∷ []

table-IsSound : All (IsSound webhook_events) table
table-IsSound = ground arith

zombie_harmless_example :
    NoEffect webhook_events 3 7 4
      (run webhook_events (step webhook_events table (reclaims 60 0)) late_calls)
zombie_harmless_example =
    zombie_harmless webhook_events 3 7 4 60 0 table late_calls table-Distinct (ground arith)

run-IsSound_example : All (IsSound webhook_events) (run webhook_events table late_calls)
run-IsSound_example = run-IsSound webhook_events table late_calls table-Distinct table-IsSound
