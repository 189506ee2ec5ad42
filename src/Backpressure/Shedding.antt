-- ===== src/Backpressure/Shedding.antt =====
-- What load shedding guarantees.
use helloplanbuddy_cmd_plan.Base.{
  ℕ, zero, suc, ◌+◌, ◌≤◌, ◌≡◌, ◌≢◌, inl, inr, Bool, true, Option, none, some, List, [], ◌∷◌, ◌++◌,
  arith, Bool-cases,
}
use helloplanbuddy_cmd_plan.Base.Text.{Text, codes, starts_with, any_text}
use helloplanbuddy_cmd_plan.Backpressure.Tiers.{
  Tier, high, medium, low, get_priority_tier, should_bypass_backpressure, State, initial, Pool,
  pool_critical, reject_reason, admitted, decided, receive, on_finish, on_close,
}

-- Under the same load, pool and lag, a tier that is admitted leaves no higher tier rejected.
pub higher_tiers_admitted :
    (active : ℕ) (critical : Bool) (lag : ℕ)
    → (reject_reason low active critical lag ≡ none
        → reject_reason medium active critical lag ≡ none)
      × (reject_reason medium active critical lag ≡ none
          → reject_reason high active critical lag ≡ none)
unfolding reject_reason
higher_tiers_admitted active critical lag = ground arith

pub data Event : Type 0 where
  arrival : Text → ℕ → Option Pool → Event
  finish : ℕ → ℕ → Event
  close : Bool → Event

unfoldable pub handle : Event → State → State
handle (arrival path lag pool) s = (receive path lag pool s).0
handle (finish duration now) s = on_finish duration now s
handle (close writable_ended) s = on_close writable_ended s

unfoldable pub handle_all : List Event → State → State
handle_all [] s = s
handle_all (e ∷ es) s = handle_all es (handle e s)

few_admitted :
    (tier : Tier) (s : State) (critical : Bool) (lag : ℕ)
    → s.active_requests ≤ 49
    → (decided s (reject_reason tier s.active_requests critical lag)).0.active_requests ≤ 48
unfolding reject_reason
few_admitted low s critical lag h = ground arith
few_admitted medium s critical lag h = ground arith
few_admitted high s critical lag h = ground arith

few_received :
    (path : Text) (lag : ℕ) (pool : Option Pool) (s : State)
    → s.active_requests ≤ 48
    → (receive path lag pool s).0.active_requests ≤ 48
unfolding receive
few_received path lag pool s h =
    let t : State = record s {
      event_loop_lag = lag;
      active_requests = s.active_requests + 1;
      total_requests = s.total_requests + 1;
    } in
    elim (Bool-cases (should_bypass_backpressure path)) [
      | inl away ↦ rw away h
      | inr here ↦
          rw here
            (few_admitted (get_priority_tier path) t (pool_critical pool) lag (omega (arith, h)))
    ]

few_handled : (e : Event) (s : State) → s.active_requests ≤ 48 → (handle e s).active_requests ≤ 48
unfolding handle on_finish on_close
few_handled (arrival path lag pool) s h = few_received path lag pool s h
few_handled (finish duration now) s h = omega (arith, h)
few_handled (close writable_ended) s h = ground (arith, h)

-- Whatever arrives, finishes and closes in whatever order, at most 48 requests are counted as
-- open.
pub open_requests_bounded :
    (es : List Event) (s : State) → s.active_requests ≤ 48 → (handle_all es s).active_requests ≤ 48
unfolding handle_all
open_requests_bounded [] s h = h
open_requests_bounded (e ∷ es) s h = open_requests_bounded es (handle e s) (few_handled e s h)

-- A request for a payment that is answered, but whose client leaves before the answer is sent.
abbrev pub unsent : List Event
unsent = arrival (codes "/api/payment") 0 (some (record { total = 0; idle = 0 })) ∷ close true ∷ []

unfoldable pub unsent_times : ℕ → List Event
unsent_times zero = []
unsent_times (suc n) = unsent ++ unsent_times n

unsent_counted :
    (s : State)
    → s.active_requests ≤ 47
    → (handle_all unsent s).active_requests ≡ s.active_requests + 1
unfolding handle_all handle receive on_close should_bypass_backpressure get_priority_tier
    starts_with any_text reject_reason
unsent_counted s h = ground (arith, h)

unsent_all_counted :
    (n : ℕ) (s : State)
    → s.active_requests + n ≤ 48
    → (handle_all (unsent_times n) s).active_requests ≡ s.active_requests + n
unfolding unsent_times handle_all
unsent_all_counted zero s h = omega arith
unsent_all_counted (suc n) s h =
    let one = unsent_counted s (omega (arith, h)) in
    omega (arith, one, unsent_all_counted n (handle_all unsent s) (omega (arith, one, h)))

decided_when_full :
    (tier : Tier) (s : State) (critical : Bool) (lag : ℕ)
    → 49 ≤ s.active_requests
    → (decided s (reject_reason tier s.active_requests critical lag)).1 ≢ admitted
unfolding reject_reason
decided_when_full low s critical lag h = ground (arith, h)
decided_when_full medium s critical lag h = ground (arith, h)
decided_when_full high s critical lag h = ground (arith, h)

refused_when_full :
    (path : Text) (lag : ℕ) (pool : Option Pool) (s : State)
    → 48 ≤ s.active_requests
    → (receive path lag pool s).1 ≢ admitted
unfolding receive
refused_when_full path lag pool s h =
    let t : State = record s {
      event_loop_lag = lag;
      active_requests = s.active_requests + 1;
      total_requests = s.total_requests + 1;
    } in
    elim (Bool-cases (should_bypass_backpressure path)) [
      | inl away ↦ rw away (ground arith)
      | inr here ↦
          rw here (
            decided_when_full (get_priority_tier path) t (pool_critical pool) lag
              (omega (arith, h)))
    ]

-- After 48 requests whose clients leave between the end of the answer and its sending, no request
-- of any tier is admitted, although none is open.
pub unsent_answers_block :
    (path : Text) (lag : ℕ) (pool : Option Pool)
    → (receive path lag pool (handle_all (unsent_times 48) initial)).1 ≢ admitted
unsent_answers_block path lag pool =
    refused_when_full path lag pool (handle_all (unsent_times 48) initial)
      (omega (arith, unsent_all_counted 48 initial))
