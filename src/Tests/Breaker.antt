-- ===== src/Tests/Breaker.antt =====
-- Runs of the circuit breaker of planbuddy_v9/utils/circuitBreakerUtil.js.
use helloplanbuddy_cmd_plan.Base.{◌≡◌, true, false, List, [], ◌∷◌, arith}
use helloplanbuddy_cmd_plan.Breaker.{
  closed, Breaker, Event, begins, settles, begin, record_failure, run,
}
use helloplanbuddy_cmd_plan.Breaker.Machine.{failure_blocks}

abbrev fresh : Breaker
fresh = record {
  failure_threshold = 2;
  success_threshold = 2;
  timeout = 100;
  state = closed;
  failure_count = 1;
  success_count = 0;
  next_attempt = 0;
  metrics = record {
    total_requests = 0;
    total_errors = 0;
    total_successes = 0;
    state_transitions = 0;
  };
}

abbrev meanwhile : List Event
meanwhile = begins 10 11 ∷ settles 12 true ∷ begins 106 106 ∷ []

failure_blocks_example : (begin 50 51 (run (record_failure 7 fresh) meanwhile)).1 ≡ false
failure_blocks_example =
    failure_blocks fresh 7 50 51 meanwhile (λ e. cc) (λ e. omega arith) (omega arith) (omega arith)
