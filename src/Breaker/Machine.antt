-- ===== src/Breaker/Machine.antt =====
-- The state machine of the breaker: its invariant, its edges, and how long it stays open.
use helloplanbuddy_cmd_plan.Base.{
  ℕ, zero, suc, ◌+◌, ◌≤◌, ◌<◌, ◌≡◌, refl, ◌≢◌, ◌⊎◌, false, Option, List, [], ◌∷◌, arith, All,
}
use helloplanbuddy_cmd_plan.Breaker.{
  record_failure, record_success, begin, State, closed, open_state, half_open, Breaker, Event,
  begins, settles, resets, make, step, run,
}

-- What holds between two events.
pub record IsValid (b : Breaker) : Type 0 where
  pub failure_pos : 0 < b.failure_threshold
  pub success_pos : 0 < b.success_threshold
  pub closed_below : b.state ≡ closed → b.failure_count < b.failure_threshold
  pub probing_below : b.state ≡ half_open → b.success_count < b.success_threshold

pub make-IsValid : (f s t : Option ℕ) (now : ℕ) → IsValid (make f s t now)
unfolding make
make-IsValid f s t now = ground arith

-- Every event keeps the counters below their thresholds: the failures while the breaker is closed,
-- the successes while it is half-open.
pub step-IsValid : (b : Breaker) (e : Event) → IsValid b → IsValid (step b e)
unfolding step
step-IsValid b (begins now later) h = ground (arith, h.closed_below, h.probing_below)
step-IsValid b (settles now ok) h = ground (arith, h.closed_below, h.probing_below)
step-IsValid b (resets now) h = ground arith

pub run-IsValid : (b : Breaker) (es : List Event) → IsValid b → IsValid (run b es)
unfolding run
run-IsValid b [] h = h
run-IsValid b (e ∷ es) h = run-IsValid (step b e) es (step-IsValid b e h)

-- The edges of the breaker.
infix 40 ◌⟶◌
pub data ◌⟶◌ : State → State → Type 0 where
  stay : {s : State} → s ⟶ s
  trip : closed ⟶ open_state
  probe : open_state ⟶ half_open
  relapse : half_open ⟶ open_state
  recover : half_open ⟶ closed

-- Apart from `reset`, an event keeps the state or follows one of the four edges: closed to open,
-- open to half-open, half-open to open and half-open to closed. Each edge is counted once as a
-- transition, and nothing else is.
pub step-⟶ :
    (b : Breaker) (e : Event)
    → ((now : ℕ) → e ≢ resets now)
    → (b.state ⟶ (step b e).state)
      × ((b.state ≡ (step b e).state)
            × ((step b e).metrics.state_transitions ≡ b.metrics.state_transitions)
          ⊎ (b.state ≢ (step b e).state)
            × ((step b e).metrics.state_transitions ≡ b.metrics.state_transitions + 1))
unfolding step
step-⟶ b (begins now later) h = grind (arith, stay, probe)
step-⟶ b (settles now ok) h = grind (arith, stay, trip, relapse, recover)
step-⟶ b (resets now) h = absurd (h now refl)

-- Events in which no call begins at `t` or later, and the breaker is not reset.
abbrev pub Before : ℕ → Event → Type 0
Before t (begins now later) = now < t
Before t (settles now ok) = Unit
Before t (resets now) = ⊥

abbrev pub OpenUntil : ℕ → Breaker → Type 0
OpenUntil t b = (b.state ≡ open_state) × (b.next_attempt ≡ t)

step-OpenUntil :
    (b : Breaker) (t : ℕ) (e : Event) → OpenUntil t b → Before t e → OpenUntil t (step b e)
unfolding step
step-OpenUntil b t (begins now later) h p = ground arith
step-OpenUntil b t (settles now ok) h p = ground arith
step-OpenUntil b t (resets now) h p = absurd p

pub run-OpenUntil :
    (b : Breaker) (t : ℕ) (es : List Event)
    → OpenUntil t b
    → All (Before t) es
    → OpenUntil t (run b es)
unfolding run
run-OpenUntil b t [] h p = h
run-OpenUntil b t (e ∷ es) h p = run-OpenUntil (step b e) t es (step-OpenUntil b t e h p.0) p.1

-- A failure that is recorded at `now` while the breaker is half-open, or as the last one under the
-- threshold while it is closed, opens it; and then every call that begins before `now + timeout`
-- fails fast, whatever other calls began earlier or ended in the meantime.
pub failure_blocks :
    (b : Breaker) (now early later : ℕ) (es : List Event)
    → b.state ≢ open_state
    → (b.state ≡ closed → b.failure_threshold ≤ b.failure_count + 1)
    → All (Before (now + b.timeout)) es
    → early < now + b.timeout
    → (begin early later (run (record_failure now b) es)).1 ≡ false
unfolding begin record_failure
failure_blocks b now early later es c f p q =
    ground (arith, run-OpenUntil (record_failure now b) (now + b.timeout) es (ground arith) p, f)

successes_recover_step :
    (b : Breaker)
    → b.state ≡ half_open
    → let c = record_success b in
      (b.success_threshold ≤ b.success_count + 1 → c.state ≡ closed)
      × (b.success_count + 1 < b.success_threshold
          → (c.state ≡ half_open)
            × (c.success_count ≡ b.success_count + 1)
            × (c.success_threshold ≡ b.success_threshold))
unfolding record_success
successes_recover_step b h = (ground arith, ground arith)

unfoldable pub succeed_times : ℕ → Breaker → Breaker
succeed_times zero b = b
succeed_times (suc n) b = succeed_times n (record_success b)

still_half_open :
    (n : ℕ) (b : Breaker)
    → b.state ≡ half_open
    → b.success_count + n < b.success_threshold
    → (succeed_times n b).state ≡ half_open
unfolding succeed_times
still_half_open zero b h e = h
still_half_open (suc n) b h e =
    let (s, c, t) = (successes_recover_step b h).1 (omega arith) in
    still_half_open n (record_success b) s (omega (arith, c, t))

closes :
    (n : ℕ) (b : Breaker)
    → b.state ≡ half_open
    → b.success_count + suc n ≡ b.success_threshold
    → (succeed_times (suc n) b).state ≡ closed
unfolding succeed_times
closes zero b h e = (successes_recover_step b h).0 (omega arith)
closes (suc n) b h e =
    let (s, c, t) = (successes_recover_step b h).1 (omega arith) in
    closes n (record_success b) s (omega (arith, c, t))

-- A half-open breaker that misses `suc n` successes closes with the last of them, if all calls that
-- end succeed: after any smaller number of successes it is still half-open.
pub recovers_exactly :
    (n m : ℕ) (b : Breaker)
    → b.state ≡ half_open
    → b.success_count + suc n ≡ b.success_threshold
    → m ≤ n
    → ((succeed_times m b).state ≡ half_open) × ((succeed_times (suc n) b).state ≡ closed)
recovers_exactly n m b h e le = (still_half_open m b h (omega arith), closes n b h e)
