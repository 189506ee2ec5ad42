-- ===== src/Breaker.antt =====
-- planbuddy_v9/utils/circuitBreakerUtil.js: the circuit breaker around calls of external services.
-- `execute` suspends while the wrapped function runs, so it is two steps: `begin`, up to the call,
-- and `settle`, from its result on. Other calls may run in between. Times are arguments.
pub mod Accounting
pub mod Machine
use helloplanbuddy_cmd_plan.Base.{
  ℕ, ◌+◌, Bool, true, false, ◌&&◌, Option, none, some, List, [], ◌∷◌, ltb, leb, ◌==◌, if◌then◌else◌,
}

pub data State : Type 0 where
  closed open_state half_open : State

pub record Metrics : Type 0 where
  pub total_requests : ℕ
  pub total_errors : ℕ
  pub total_successes : ℕ
  pub state_transitions : ℕ

pub record Breaker : Type 0 where
  pub failure_threshold : ℕ
  pub success_threshold : ℕ
  pub timeout : ℕ
  pub state : State
  pub failure_count : ℕ
  pub success_count : ℕ
  pub next_attempt : ℕ
  pub metrics : Metrics

-- `option || fallback`: a missing option and 0 both take the fallback.
abbrev pub or_default : Option ℕ → ℕ → ℕ
or_default none d = d
or_default (some n) d = if n == 0 then d else n

-- The constructor, at time `now`.
unfoldable pub make : Option ℕ → Option ℕ → Option ℕ → ℕ → Breaker
make failures successes timeout now = record {
  failure_threshold = or_default failures 5;
  success_threshold = or_default successes 2;
  timeout = or_default timeout 30000;
  state = closed;
  failure_count = 0;
  success_count = 0;
  next_attempt = now;
  metrics = record {
    total_requests = 0;
    total_errors = 0;
    total_successes = 0;
    state_transitions = 0;
  };
}

abbrev pub is_open : State → Bool
is_open open_state = true
is_open closed = false
is_open half_open = false

abbrev pub transition : Metrics → Metrics
transition m = record m { state_transitions = m.state_transitions + 1 }

abbrev pub count_request : Metrics → Metrics
count_request m = record m { total_requests = m.total_requests + 1 }

abbrev pub count_error : Metrics → Metrics
count_error m = record m { total_errors = m.total_errors + 1 }

abbrev pub count_success : Metrics → Metrics
count_success m = record m { total_successes = m.total_successes + 1 }

-- The part of `execute` before the call. It reads the clock twice, `now` and then `later`; the
-- result says whether the function is called, `false` being CIRCUIT_BREAKER_OPEN.
unfoldable pub begin : ℕ → ℕ → Breaker → Breaker × Bool
begin now later b =
    let c = record b { metrics = count_request b.metrics } in
    if is_open b.state && ltb now b.next_attempt then (c, false) else (
      if is_open b.state && leb b.next_attempt later
          then record c { state = half_open; success_count = 0; metrics = transition c.metrics }
          else c,
      true,
    )

abbrev pub succeed : State → Breaker → Breaker
succeed half_open b =
    let c = record b { success_count = b.success_count + 1 } in
    if leb b.success_threshold (b.success_count + 1)
    then record c { state = closed; failure_count = 0; metrics = transition c.metrics }
    else c
succeed closed b = record b { failure_count = 0 }
succeed open_state b = b

-- `_recordSuccess`
unfoldable pub record_success : Breaker → Breaker
record_success b = succeed b.state (record b { metrics = count_success b.metrics })

abbrev pub fail : State → ℕ → Breaker → Breaker
fail half_open now b = record b {
  state = open_state;
  next_attempt = now + b.timeout;
  failure_count = 0;
  metrics = transition b.metrics;
}
fail closed now b =
    let c = record b { failure_count = b.failure_count + 1 } in
    if leb b.failure_threshold (b.failure_count + 1)
    then record c {
      state = open_state;
      next_attempt = now + b.timeout;
      metrics = transition c.metrics;
    }
    else c
fail open_state now b = b

-- `_recordFailure`
unfoldable pub record_failure : ℕ → Breaker → Breaker
record_failure now b = fail b.state now (record b { metrics = count_error b.metrics })

-- `reset`
unfoldable pub reset : ℕ → Breaker → Breaker
reset now b = record b { state = closed; failure_count = 0; success_count = 0; next_attempt = now }

-- The part of `execute` after the call, which ended at `now`.
unfoldable pub settle : ℕ → Bool → Breaker → Breaker
unfolding record_success record_failure
settle now ok b = if ok then record_success b else record_failure now b

-- What happens to a breaker: a call begins, a call ends, or it is reset.
pub data Event : Type 0 where
  begins : ℕ → ℕ → Event
  settles : ℕ → Bool → Event
  resets : ℕ → Event

unfoldable pub step : Breaker → Event → Breaker
unfolding begin settle reset
step b (begins now later) = (begin now later b).0
step b (settles now ok) = settle now ok b
step b (resets now) = reset now b

unfoldable pub run : Breaker → List Event → Breaker
run b [] = b
run b (e ∷ es) = run (step b e) es
