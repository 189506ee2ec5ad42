-- ===== src/Adaptive/Transitions.antt =====
-- When the circuit of a queue opens, and how long it stays open.
use helloplanbuddy_cmd_plan.Base.{
  ℕ, suc, ◌+◌, ◌*◌, ◌≤◌, ◌<◌, ◌≡◌, refl, true, false, some, List, [], ◌∷◌, map, arith, length, All,
}
use helloplanbuddy_cmd_plan.Queues.{
  QueueKey, concurrency, concurrency_min, probe_count, failure_threshold, open_timeout_ms,
}
use helloplanbuddy_cmd_plan.Adaptive.{
  Slot, open_circuit, half_open, Call, polls, failed_at, succeeded, rate_limited, drains,
  on_success, on_failure, step, run, can_process, admitted,
}

failure_opens :
    (key : QueueKey) (now : ℕ) (s : Slot)
    → failure_threshold key ≤ s.failures + 1
    → (on_failure key now s).circuit ≡ open_circuit
unfolding on_failure
failure_opens key now s h = ground arith

failure_counts :
    (key : QueueKey) (now : ℕ) (s : Slot) → (on_failure key now s).failures ≡ s.failures + 1
unfolding on_failure
failure_counts key now s = ground arith

failure_keeps_open :
    (key : QueueKey) (now : ℕ) (s : Slot)
    → s.circuit ≡ open_circuit
    → (on_failure key now s).circuit ≡ open_circuit
unfolding on_failure
failure_keeps_open key now s h = ground arith

failures_keep_open :
    (key : QueueKey) (s : Slot) (times : List ℕ)
    → s.circuit ≡ open_circuit
    → (run key s (map failed_at times)).circuit ≡ open_circuit
unfolding run step
failures_keep_open key s [] h = h
failures_keep_open key s (t ∷ ts) h =
    failures_keep_open key (on_failure key t s) ts (failure_keeps_open key t s h)

failures_open :
    (key : QueueKey) (s : Slot) (t : ℕ) (ts : List ℕ)
    → failure_threshold key ≤ s.failures + suc (length ts)
    → (run key s (map failed_at (t ∷ ts))).circuit ≡ open_circuit
unfolding run step
failures_open key s t [] h = failure_opens key t s (omega arith)
failures_open key s t (u ∷ us) h =
    failures_open key (on_failure key t s) u us (omega (arith, failure_counts key t s))

threshold_pos : (key : QueueKey) → 0 < failure_threshold key
threshold_pos QueueKey.webhook_events = omega arith
threshold_pos QueueKey.email_dispatch = omega arith
threshold_pos QueueKey.refund_retry = omega arith
threshold_pos QueueKey.booking_expiry = omega arith
threshold_pos QueueKey.payment_reconciliation = omega arith
threshold_pos QueueKey.outbox_relay = omega arith

-- From any state, a run of consecutive failures that is at least as long as the failure threshold
-- of the queue leaves its circuit open.
pub consecutive_failures_open :
    (key : QueueKey) (s : Slot) (times : List ℕ)
    → failure_threshold key ≤ length times
    → (run key s (map failed_at times)).circuit ≡ open_circuit
consecutive_failures_open key s [] h = absurd (omega (arith, threshold_pos key))
consecutive_failures_open key s (t ∷ ts) h = failures_open key s t ts (omega arith)

-- Calls that are made before the time `t`.
abbrev pub Before : ℕ → Call → Type 0
Before t (polls now) = now < t
Before t (failed_at now) = now < t
Before t succeeded = Unit
Before t rate_limited = Unit
Before t (drains flag) = Unit

-- The circuit was opened at `t`.
abbrev pub OpenedAt : ℕ → Slot → Type 0
OpenedAt t s = (s.circuit ≡ open_circuit) × (s.opened_at ≡ some t)

step-OpenedAt :
    (key : QueueKey) (t : ℕ) (s : Slot) (c : Call)
    → OpenedAt t s
    → Before (t + open_timeout_ms key) c
    → OpenedAt t (step key s c)
unfolding step
step-OpenedAt key t s (polls now) h b = ground arith
step-OpenedAt key t s (failed_at now) h b = ground arith
step-OpenedAt key t s succeeded h b = ground arith
step-OpenedAt key t s rate_limited h b = ground arith
step-OpenedAt key t s (drains flag) h b = ground arith

poll_refused :
    (key : QueueKey) (t now : ℕ) (s : Slot)
    → OpenedAt t s
    → now < t + open_timeout_ms key
    → (can_process key now s).1 ≡ false
unfolding can_process
poll_refused key t now s h b = ground arith

-- Once a circuit was opened at time `t`, no history of calls that are all made before the timeout
-- has run out gets a poll through, whatever results of items in flight come back meanwhile; and the
-- circuit is still open, since `t`, at the end of it.
pub open_fails_fast :
    (key : QueueKey) (t : ℕ) (s : Slot) (cs : List Call)
    → OpenedAt t s
    → All (Before (t + open_timeout_ms key)) cs
    → (admitted key s cs ≡ 0) × OpenedAt t (run key s cs)
unfolding run admitted
open_fails_fast key t s [] h b = (refl, h)
open_fails_fast key t s (polls now ∷ cs) h b = ground (
  arith,
  poll_refused key t now s h b.0,
  open_fails_fast key t (step key s (polls now)) cs (step-OpenedAt key t s (polls now) h b.0) b.1,
)
open_fails_fast key t s (failed_at now ∷ cs) h b =
    open_fails_fast key t (step key s (failed_at now)) cs
      (step-OpenedAt key t s (failed_at now) h b.0) b.1
open_fails_fast key t s (succeeded ∷ cs) h b =
    open_fails_fast key t (step key s succeeded) cs (step-OpenedAt key t s succeeded h tt) b.1
open_fails_fast key t s (rate_limited ∷ cs) h b =
    open_fails_fast key t (step key s rate_limited) cs (step-OpenedAt key t s rate_limited h tt) b.1
open_fails_fast key t s (drains flag ∷ cs) h b =
    open_fails_fast key t (step key s (drains flag)) cs (step-OpenedAt key t s (drains flag) h tt)
      b.1

-- A success that closes the circuit of a draining queue raises its concurrency above the minimum,
-- for every queue whose initial concurrency is at least four times one more than its minimum.
pub close_ignores_drain :
    (key : QueueKey) (s : Slot)
    → 4 * (concurrency_min key + 1) ≤ concurrency key
    → s.draining ≡ true
    → s.circuit ≡ half_open
    → probe_count key ≤ s.probe_successes + 1
    → concurrency_min key < (on_success key s).current
unfolding on_success
close_ignores_drain key s big d h p = ground arith
