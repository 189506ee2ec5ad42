-- ===== src/Tests/Adaptive.antt =====
-- Runs of the adaptive controller of adaptive-controller.js.
use helloplanbuddy_cmd_plan.Base.{◌≡◌, refl, true, false, some, List, [], ◌∷◌, arith}
use helloplanbuddy_cmd_plan.Queues.{webhook_events}
use helloplanbuddy_cmd_plan.Adaptive.{
  Slot, open_circuit, Call, polls, failed_at, succeeded, rate_limited, drains, init, step, run,
  admitted,
}
use helloplanbuddy_cmd_plan.Adaptive.Bounds.{InBounds, run-InBounds}
use helloplanbuddy_cmd_plan.Adaptive.Transitions.{OpenedAt, open_fails_fast}

abbrev busy : List Call
busy = failed_at 5 ∷ rate_limited ∷ succeeded ∷ polls 9 ∷ drains true ∷ []

run-InBounds_example : InBounds webhook_events (run webhook_events (init webhook_events) busy)
run-InBounds_example = run-InBounds webhook_events busy

abbrev base : Slot
base = record {
  circuit = open_circuit;
  failures = 5;
  rate_limits = 0;
  opened_at = some 100;
  probes = 0;
  probe_successes = 0;
  current = 5;
  streak = 0;
  draining = false;
}

abbrev early : List Call
early = polls 200 ∷ succeeded ∷ failed_at 20000 ∷ polls 30099 ∷ []

open_fails_fast_example :
    (admitted webhook_events base early ≡ 0) × OpenedAt 100 (run webhook_events base early)
open_fails_fast_example = open_fails_fast webhook_events 100 base early (refl, refl) (omega arith)

abbrev late : List Call
late = polls 30100 ∷ polls 30101 ∷ rate_limited ∷ polls 30102 ∷ []

probes_used : admitted webhook_events base late ≡ 2
unfolding admitted step
probes_used = refl
