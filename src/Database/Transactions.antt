-- ===== src/Database/Transactions.antt =====
-- db.js: `_runTransaction` and `validateClusterPoolSafety`. Times are in milliseconds.
use helloplanbuddy_cmd_plan.Base.{
  ℕ, zero, suc, ◌+◌, ◌-◌, ◌*◌, ◌/◌, ◌^◌, Bool, true, false, ◌&&◌, Option, none, some, ltb,
  if◌then◌else◌,
}

abbrev pub max_retries : ℕ
max_retries = 3

abbrev pub base_delay : ℕ
base_delay = 50

-- The codes of the errors: 40001, 40P01 and all others.
pub data Code : Type 0 where
  serialization_failure deadlock_detected other : Code

abbrev pub is_retryable : Code → Bool
is_retryable serialization_failure = true
is_retryable deadlock_detected = true
is_retryable other = false

-- `connect()` may throw, outside the `try`.
pub data Outcome {ℓ} (A : Type ℓ) : Type ℓ where
  not_connected : Outcome A
  committed : A → Outcome A
  failed : Code → Outcome A

pub data Result {ℓ} (A : Type ℓ) : Type ℓ where
  returned : A → Result A
  threw : Code → Result A
  connection_threw : Result A

-- `BASE_DELAY * Math.pow(2, attempt - 1)`, without the random part.
unfoldable pub delay : ℕ → ℕ
delay attempt = base_delay * 2 ^ (attempt - 1)

-- What an attempt is followed by: the result, or none for another attempt.
abbrev pub after {ℓ} : {A : Type ℓ} → ℕ → Outcome A → Option (Result A)
after attempt not_connected = some connection_threw
after attempt (committed a) = some (returned a)
after attempt (failed code) =
    if is_retryable code && ltb attempt max_retries then none else some (threw code)

-- A run that has ended, with the state, the result, the attempts and the time waited.
pub record Ended {ℓ κ} (D : Type ℓ) (A : Type κ) : Type (ℓ ⊔ κ) where
  pub state : D
  pub result : Result A
  pub attempts : ℕ
  pub waited : ℕ

abbrev pub end_or_retry {ℓ κ} :
    {D : Type ℓ} {A : Type κ}
    → D
    → ℕ
    → ℕ
    → Option (Result A)
    → Option (Ended D A)
    → Option (Ended D A)
end_or_retry d attempt waited none rest = rest
end_or_retry d attempt waited (some result) rest =
    some (record { state = d; result = result; attempts = attempt; waited = waited })

-- `once` is the attempt of a number: a client, its statements from SET LOCAL to COMMIT or ROLLBACK
-- with the callback between, and its release. `others` is what other transactions commit after an
-- attempt, up to the next one.
module _ {ℓ κ} {D : Type ℓ} {A : Type κ} (once : ℕ → D → D × Outcome A) (others : ℕ → D → D) where
  -- The loop `while (true)`, after some attempts and some waiting; none is a run out of fuel.
  unfoldable pub run_from : ℕ → ℕ → ℕ → D → Option (Ended D A)
  run_from zero attempts waited d = none
  run_from (suc fuel) attempts waited d =
      let attempt = suc attempts in
      let o = once attempt d in
      let rest = run_from fuel attempt (waited + delay attempt) (others attempt o.0) in
      end_or_retry o.0 attempt waited (after attempt o.1) rest

  -- `_runTransaction`
  unfoldable pub run_transaction : ℕ → D → Option (Ended D A)
  run_transaction fuel d = run_from fuel 0 0 d

-- `validateClusterPoolSafety`: `Math.floor(pgMax * 0.8)` and what follows from it.
pub data Sizing : Type 0 where
  -- `process.exit(1)`, with the pool size that is proposed.
  fatal : ℕ → Sizing
  warning : Sizing
  sized : Sizing

abbrev pub max_allowed : ℕ → ℕ
max_allowed pg_max = 4 * pg_max / 5

unfoldable pub validate_cluster_pool_safety : ℕ → ℕ → ℕ → Sizing
validate_cluster_pool_safety pool_max instances pg_max =
    let total = pool_max * instances in
    if ltb (max_allowed pg_max) total
    then fatal (max_allowed pg_max / instances)
    else (if ltb (6 * pg_max) (10 * total) then warning else sized)
