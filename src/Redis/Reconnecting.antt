-- ===== src/Redis/Reconnecting.antt =====
-- How long a client that lost its server goes on.
use helloplanbuddy_cmd_plan.Base.{
  ℕ, suc, ◌+◌, ◌*◌, ◌^◌, ◌≤◌, ◌<◌, min, ◌≡◌, refl, sym, true, false, none, some, List, [], ◌∷◌,
  arith, length, power_positive,
}
use native.Mathlib.Nat.{zero-add, div-le_of_le-mul, le-div_iff_mul-le, mul-le-mul_right}
use helloplanbuddy_cmd_plan.Redis.{
  max_reconnect_attempts, circuit_breaker_cooldown_ms, is_circuit_open, record_attempt, backoff,
  jittered, reconnect_strategy, Client, Event, connects, becomes_ready, loses, handle, handle_all,
  base_retry_ms, max_retry_ms,
}

-- Losses alone, each with its time and draw.
unfoldable pub all_lost : List (ℕ × ℕ × ℕ) → List Event
all_lost [] = []
all_lost ((now, k, n) ∷ ls) = loses now k n ∷ all_lost ls

ended_step : (e : Event) (c : Client) → c.is_ended ≡ true → handle e c ≡ c
unfolding handle
ended_step connects c h = ground (arith, h)
ended_step becomes_ready c h = ground (arith, h)
ended_step (loses now k n) c h = ground (arith, h)

ended_stays : (es : List Event) (c : Client) → c.is_ended ≡ true → handle_all es c ≡ c
unfolding handle_all
ended_stays [] c h = refl
ended_stays (e ∷ es) c h = rw (ended_step e c h) (ended_stays es c h)

-- A client that goes on, with a closed circuit and so many attempts.
abbrev Trying : ℕ → Client → Type 0
Trying a c =
    (c.is_ended ≡ false) × (c.circuit.open_since ≡ none) × (c.circuit.attempts_since_open ≡ a)

one_loss :
    (now k n a : ℕ) (c : Client)
    → suc a < max_reconnect_attempts
    → Trying a c
    → Trying (suc a) (handle (loses now k n) c)
unfolding handle reconnect_strategy is_circuit_open record_attempt
one_loss now k n a c lt h = ground (arith, h, lt)

many_losses :
    (ls : List (ℕ × ℕ × ℕ)) (a : ℕ) (c : Client)
    → length ls + a < max_reconnect_attempts
    → Trying a c
    → Trying (length ls + a) (handle_all (all_lost ls) c)
unfolding handle_all all_lost
many_losses [] a c lt h = rw zero-add h
many_losses ((now, k, n) ∷ ls) a c lt h =
    let step = one_loss now k n a c (omega (arith, lt)) h in
    let e : length ls + suc a ≡ suc (length ls) + a = omega arith in
    rw (sym e) (many_losses ls (suc a) (handle (loses now k n) c) (omega (arith, lt)) step)

last_loss :
    (now k n : ℕ) (c : Client)
    → Trying 19 c
    → ((handle (loses now k n) c).is_ended ≡ false)
      × ((handle (loses now k n) c).circuit.open_since ≡ some now)
unfolding handle reconnect_strategy is_circuit_open record_attempt
last_loss now k n c h = ground (arith, h)

refused :
    (since now k n : ℕ) (c : Client)
    → c.circuit.open_since ≡ some since
    → now < since + circuit_breaker_cooldown_ms
    → (handle (loses now k n) c).is_ended ≡ true
unfolding handle reconnect_strategy is_circuit_open
refused since now k n c h lt = ground (arith, h, lt)

-- When a client whose circuit is closed and has counted no attempt loses its connection twenty times without making one, and once
-- more within a minute of the twentieth time, it has given up for good: whatever happens afterwards, it
-- never reconnects.
pub gives_up :
    (ls : List (ℕ × ℕ × ℕ)) (t k n now k' n' : ℕ) (es : List Event) (c : Client)
    → length ls ≡ 19
    → (c.is_ended ≡ false) × (c.circuit.open_since ≡ none) × (c.circuit.attempts_since_open ≡ 0)
    → now < t + circuit_breaker_cooldown_ms
    → let lost = handle (loses now k' n') (handle (loses t k n) (handle_all (all_lost ls) c)) in
      (lost.is_ended ≡ true) × (handle_all es lost ≡ lost)
gives_up ls t k n now k' n' es c len fresh early =
    let some_lost = many_losses ls 0 c (omega (arith, len)) fresh in
    let e : length ls + 0 ≡ 19 = omega (arith, len) in
    let tripped = last_loss t k n (handle_all (all_lost ls) c) (rw e at some_lost) in
    let over = refused t now k' n' _ tripped.1 early in (over, ended_stays es _ over)

-- A delay is at least 75 milliseconds, and at most 37.5 seconds.
pub delay_bounds :
    (retries k n : ℕ)
    → k < n
    → (75 ≤ jittered (backoff retries) k n) × (jittered (backoff retries) k n ≤ 37500)
unfolding jittered backoff
delay_bounds retries k n h =
    let d = min (base_retry_ms * 2 ^ retries) max_retry_ms in
    let p = power_positive retries in
    let low : 100 * (3 * n + 2 * k) ≤ d * (3 * n + 2 * k) = mul-le-mul_right _ (omega (arith, p)) in
    let high : d * (3 * n + 2 * k) ≤ 30000 * (3 * n + 2 * k) = mul-le-mul_right _ (omega arith) in
    (
      (le-div_iff_mul-le (omega (arith, h))).1 (omega (arith, low)),
      div-le_of_le-mul (4 * n) (omega (arith, high, h)),
    )
