-- ===== src/Breaker/Accounting.antt =====
-- The request metrics of the breaker, over every interleaving of calls.
use helloplanbuddy_cmd_plan.Base.{ℕ, ◌+◌, ◌-◌, ◌≡◌, List, [], ◌∷◌, arith, ◌==◌, if◌then◌else◌}
use helloplanbuddy_cmd_plan.Breaker.{Breaker, Event, begins, settles, resets, begin, step}

-- The calls that are running and those that were refused, beside the breaker.
pub record World : Type 0 where
  pub breaker : Breaker
  pub running : ℕ
  pub refused : ℕ

-- A call ends only if one is running; otherwise the event does not happen.
unfoldable pub advance : World → Event → World
unfolding step
advance w (begins now later) =
    let next = step w.breaker (begins now later) in
    if (begin now later w.breaker).1
    then record w { breaker = next; running = w.running + 1 }
    else record w { breaker = next; refused = w.refused + 1 }
advance w (settles now ok) =
    if w.running == 0
    then w
    else record w { breaker = step w.breaker (settles now ok); running = w.running - 1 }
advance w (resets now) = record w { breaker = step w.breaker (resets now) }

unfoldable pub history : World → List Event → World
history w [] = w
history w (e ∷ es) = history (advance w e) es

-- Every request is running, refused, or counted as an error or a success.
abbrev pub Accounts : World → Type 0
Accounts w =
    w.breaker.metrics.total_requests
    ≡ w.breaker.metrics.total_errors + w.breaker.metrics.total_successes + w.running + w.refused

advance-Accounts : (w : World) (e : Event) → Accounts w → Accounts (advance w e)
unfolding advance
advance-Accounts w (begins now later) h = ground arith
advance-Accounts w (settles now ok) h = ground arith
advance-Accounts w (resets now) h = ground arith

-- Over every interleaving of calls that begin, end and are reset, the number of requests stays the
-- sum of the errors, the successes, the calls still running and the calls refused.
pub history-Accounts : (w : World) (es : List Event) → Accounts w → Accounts (history w es)
unfolding history
history-Accounts w [] h = h
history-Accounts w (e ∷ es) h = history-Accounts (advance w e) es (advance-Accounts w e h)
