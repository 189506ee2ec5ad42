-- ===== src/Adaptive/Probing.antt =====
-- The probes of a half-open circuit: their budget, and the states in which it is never renewed.
use helloplanbuddy_cmd_plan.Base.{
  ℕ, ◌+◌, ◌≤◌, ◌<◌, ◌≡◌, refl, ◌≢◌, Bool, false, List, [], ◌∷◌, arith, if◌then◌else◌, All,
}
use helloplanbuddy_cmd_plan.Queues.{QueueKey, probe_count, failure_threshold}
use helloplanbuddy_cmd_plan.Adaptive.{
  Slot, Circuit, closed, open_circuit, half_open, Call, polls, failed_at, succeeded, rate_limited,
  drains, on_success, on_failure, step, run, can_process, admitted,
}

-- Calls that bring no result of an item.
abbrev pub NoOutcome : Call → Type 0
NoOutcome (polls now) = Unit
NoOutcome (failed_at now) = ⊥
NoOutcome succeeded = ⊥
NoOutcome rate_limited = Unit
NoOutcome (drains flag) = Unit

-- The probes let through since the circuit became half-open.
abbrev probed : Circuit → ℕ → ℕ
probed half_open n = n
probed open_circuit n = 0
probed closed n = 0

-- The circuit is not closed, and has let through no more probes than allowed.
record IsProbing (key : QueueKey) (s : Slot) : Type 0 where
  not_closed : s.circuit ≢ closed
  within : probed s.circuit s.probes ≤ probe_count key

abbrev one_if : Bool → ℕ
one_if b = if b then 1 else 0

poll-IsProbing :
    (key : QueueKey) (now : ℕ) (s : Slot)
    → IsProbing key s
    → let (s', ok) = can_process key now s in
      IsProbing key s'
      × (probed s'.circuit s'.probes ≤ probe_count key)
      × (probed s.circuit s.probes + one_if ok ≤ probed s'.circuit s'.probes)
unfolding can_process
poll-IsProbing key now s h = ground (arith, h.not_closed)

step-IsProbing :
    (key : QueueKey) (s : Slot) (c : Call)
    → NoOutcome c
    → IsProbing key s
    → IsProbing key (step key s c)
unfolding step
step-IsProbing key s (polls now) n h = (poll-IsProbing key now s h).0
step-IsProbing key s rate_limited n h = ground (arith, h.not_closed)
step-IsProbing key s (drains flag) n h = ground (arith, h.not_closed)
step-IsProbing key s (failed_at now) n h = absurd n
step-IsProbing key s succeeded n h = absurd n

poll-probed :
    (key : QueueKey) (now : ℕ) (s : Slot)
    → IsProbing key s
    → let s' = step key s (polls now) in
      probed s.circuit s.probes + one_if (can_process key now s).1 ≤ probed s'.circuit s'.probes
unfolding step
poll-probed key now s h = (poll-IsProbing key now s h).2

step-probed :
    (key : QueueKey) (s : Slot)
    → (probed (step key s rate_limited).circuit (step key s rate_limited).probes
        ≡ probed s.circuit s.probes)
      × ((flag : Bool)
          → probed (step key s (drains flag)).circuit (step key s (drains flag)).probes
            ≡ probed s.circuit s.probes)
unfolding step
step-probed key s = (ground arith, λ flag. ground arith)

admitted_budget :
    (key : QueueKey) (s : Slot) (cs : List Call)
    → All NoOutcome cs
    → IsProbing key s
    → probed s.circuit s.probes + admitted key s cs ≤ probe_count key
unfolding admitted
admitted_budget key s [] n h = omega (arith, h.within)
admitted_budget key s (polls now ∷ cs) n h = omega (
  arith,
  poll-probed key now s h,
  admitted_budget key (step key s (polls now)) cs n.1 (step-IsProbing key s (polls now) tt h),
)
admitted_budget key s (rate_limited ∷ cs) n h = omega (
  arith,
  (step-probed key s).0,
  admitted_budget key (step key s rate_limited) cs n.1 (step-IsProbing key s rate_limited tt h),
)
admitted_budget key s (drains flag ∷ cs) n h = omega (
  arith,
  (step-probed key s).1 flag,
  admitted_budget key (step key s (drains flag)) cs n.1 (step-IsProbing key s (drains flag) tt h),
)
admitted_budget key s (failed_at now ∷ cs) n h = absurd n.0
admitted_budget key s (succeeded ∷ cs) n h = absurd n.0

-- While a circuit that is open or half-open gets no result of an item, at most the queue's probe
-- count of polls are let through in all, whenever they are made.
pub probe_budget :
    (key : QueueKey) (s : Slot) (cs : List Call)
    → s.circuit ≢ closed
    → (s.circuit ≡ half_open → s.probes ≤ probe_count key)
    → All NoOutcome cs
    → admitted key s cs ≤ probe_count key
probe_budget key s cs c p n =
    omega
      (arith, admitted_budget key s cs n (record { not_closed = c; within = ground (arith, p) }))

-- A half-open circuit whose probes are used up.
abbrev pub IsSpent : QueueKey → Slot → Type 0
IsSpent key s = (s.circuit ≡ half_open) × (probe_count key ≤ s.probes)

step-IsSpent :
    (key : QueueKey) (s : Slot) (c : Call)
    → NoOutcome c
    → IsSpent key s
    → IsSpent key (step key s c)
unfolding step
step-IsSpent key s (polls now) n h = ground arith
step-IsSpent key s rate_limited n h = ground arith
step-IsSpent key s (drains flag) n h = ground arith
step-IsSpent key s (failed_at now) n h = absurd n
step-IsSpent key s succeeded n h = absurd n

spent_refuses :
    (key : QueueKey) (now : ℕ) (s : Slot) → IsSpent key s → (can_process key now s).1 ≡ false
unfolding can_process
spent_refuses key now s h = ground arith

-- A half-open circuit whose probes are used up lets no poll through ever again, however late, until
-- the result of an item comes back; a probe that claimed no item brings none.
pub used_up_refuses :
    (key : QueueKey) (s : Slot) (cs : List Call)
    → IsSpent key s
    → All NoOutcome cs
    → (admitted key s cs ≡ 0) × IsSpent key (run key s cs)
unfolding admitted run
used_up_refuses key s [] h n = (refl, h)
used_up_refuses key s (polls now ∷ cs) h n = ground (
  arith,
  spent_refuses key now s h,
  used_up_refuses key (step key s (polls now)) cs (step-IsSpent key s (polls now) tt h) n.1,
)
used_up_refuses key s (rate_limited ∷ cs) h n =
    used_up_refuses key (step key s rate_limited) cs (step-IsSpent key s rate_limited tt h) n.1
used_up_refuses key s (drains flag ∷ cs) h n =
    used_up_refuses key (step key s (drains flag)) cs (step-IsSpent key s (drains flag) tt h) n.1
used_up_refuses key s (failed_at now ∷ cs) h n = absurd n.0
used_up_refuses key s (succeeded ∷ cs) h n = absurd n.0

-- When the first of several probes succeeds and the next one fails, the circuit neither closes nor
-- opens again: with all probes used and no result outstanding it is stuck half-open.
pub mixed_probes_spend :
    (key : QueueKey) (s : Slot) (now : ℕ)
    → IsSpent key s
    → s.probe_successes + 1 < probe_count key
    → 1 < failure_threshold key
    → IsSpent key (on_failure key now (on_success key s))
unfolding on_failure on_success
mixed_probes_spend key s now h p f = ground arith
