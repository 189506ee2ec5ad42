-- ===== src/Tests/Outbox.antt =====
-- Runs of the outbox of atomic-engine.js.
use helloplanbuddy_cmd_plan.Base.{◌≤◌, false, none, some, List, [], ◌∷◌, arith}
use helloplanbuddy_cmd_plan.Engine.Outbox.{processing, pending, Event, Failure}
use helloplanbuddy_cmd_plan.Engine.Relay.{
  Step, writes, claims, reclaims, fails, run_steps, keyed_rows, keys, keys_stay_single,
}

abbrev event : Event
event = record {
  id = 1;
  status = processing;
  aggregate_type = 3;
  idempotency_key = some 70;
  sequence_number = 1;
  leased_by = some 8;
  lease_expires_at = some 100;
  lease_version = 2;
  delivery_attempt = 0;
  max_attempts = 10;
  run_after = none;
  last_error = none;
  delivered_at = none;
  updated_at = 50;
}

abbrev failure : Failure
failure = record { message = 6; force_dead_letter = false; max_attempts = 10 }

abbrev steps : List Step
steps =
    writes (record event { id = 2; status = pending })
    ∷ reclaims 200
    ∷ claims 9 none 5 (λ n. false) 200 200
    ∷ fails 1 9 4 failure 300 300
    ∷ []

keys_stay_single_example : keyed_rows 70 (keys (run_steps steps (event ∷ []))) ≤ 1
unfolding keyed_rows
keys_stay_single_example = keys_stay_single 70 steps (event ∷ []) (omega arith)
