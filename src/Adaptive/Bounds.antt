-- ===== src/Adaptive/Bounds.antt =====
-- The concurrency of a queue stays between its configured bounds.
use helloplanbuddy_cmd_plan.Base.{◌≤◌, List, [], ◌∷◌, arith}
use helloplanbuddy_cmd_plan.Queues.{QueueKey, concurrency, concurrency_min, concurrency_max}
use helloplanbuddy_cmd_plan.Adaptive.{
  Slot, Call, polls, failed_at, succeeded, rate_limited, drains, init, step, run,
}

pub record InBounds (key : QueueKey) (s : Slot) : Type 0 where
  pub above : concurrency_min key ≤ s.current
  pub below : s.current ≤ concurrency_max key

min-le-max : (key : QueueKey) → concurrency_min key ≤ concurrency_max key
min-le-max QueueKey.webhook_events = omega arith
min-le-max QueueKey.email_dispatch = omega arith
min-le-max QueueKey.refund_retry = omega arith
min-le-max QueueKey.booking_expiry = omega arith
min-le-max QueueKey.payment_reconciliation = omega arith
min-le-max QueueKey.outbox_relay = omega arith

init_bounds :
    (key : QueueKey)
    → (concurrency_min key ≤ concurrency key) × (concurrency key ≤ concurrency_max key)
init_bounds QueueKey.webhook_events = omega arith
init_bounds QueueKey.email_dispatch = omega arith
init_bounds QueueKey.refund_retry = omega arith
init_bounds QueueKey.booking_expiry = omega arith
init_bounds QueueKey.payment_reconciliation = omega arith
init_bounds QueueKey.outbox_relay = omega arith

pub init-InBounds : (key : QueueKey) → InBounds key (init key)
unfolding init
init-InBounds key = omega (arith, init_bounds key)

pub step-InBounds :
    (key : QueueKey) (s : Slot) (c : Call) → InBounds key s → InBounds key (step key s c)
unfolding step
step-InBounds key s (polls now) h = ground arith
step-InBounds key s (failed_at now) h = ground (arith, min-le-max key)
step-InBounds key s succeeded h = ground (arith, min-le-max key, init_bounds key)
step-InBounds key s rate_limited h = ground (arith, min-le-max key)
step-InBounds key s (drains flag) h = ground (arith, min-le-max key)

run_from-InBounds :
    (key : QueueKey) (s : Slot) (cs : List Call) → InBounds key s → InBounds key (run key s cs)
unfolding run
run_from-InBounds key s [] h = h
run_from-InBounds key s (c ∷ cs) h =
    run_from-InBounds key (step key s c) cs (step-InBounds key s c h)

-- After any sequence of calls on a new controller the concurrency of a queue lies between the
-- configured minimum and maximum of that queue.
pub run-InBounds : (key : QueueKey) (cs : List Call) → InBounds key (run key (init key) cs)
run-InBounds key cs = run_from-InBounds key (init key) cs (init-InBounds key)
