-- ===== src/Engine/Log.antt =====
-- atomic-engine.js: the execution log and the buckets of rate limits. Keys, results and names are
-- numbers that are only compared.
use helloplanbuddy_cmd_plan.Base.{
  ℕ, Bool, true, false, ◌||◌, Option, none, some, List, [], ◌∷◌, ◌==◌, if◌then◌else◌,
}

-- A row of execution_log.
pub record Entry : Type 0 where
  pub operation_key : ℕ
  pub worker : ℕ
  pub result : Option ℕ

unfoldable pub find_entry : ℕ → List Entry → Option Entry
find_entry key [] = none
find_entry key (e ∷ t) = if e.operation_key == key then some e else find_entry key t

-- Not executed before, or executed with this result.
pub data Check : Type 0 where
  fresh : Check
  already_executed : Option ℕ → Check

abbrev pub insert_entry : ℕ → ℕ → List Entry → Option Entry → List Entry × Check
insert_entry key worker t none =
    (record { operation_key = key; worker = worker; result = none } ∷ t, fresh)
insert_entry key worker t (some e) = (t, already_executed e.result)

-- `checkExecutionIdempotency`
unfoldable pub check_execution_idempotency : ℕ → ℕ → List Entry → List Entry × Check
check_execution_idempotency key worker t = insert_entry key worker t (find_entry key t)

-- `recordExecutionResult`
unfoldable pub record_execution_result : ℕ → Option ℕ → List Entry → List Entry
record_execution_result key result [] = []
record_execution_result key result (e ∷ t) =
    let rest = record_execution_result key result t in
    if e.operation_key == key then record e { result = result } ∷ rest else e ∷ rest

-- A row of rate_limit_buckets.
pub record Bucket : Type 0 where
  pub bucket_key : ℕ
  pub provider : ℕ
  pub tenant : ℕ
  pub tokens : ℕ
  pub capacity : ℕ
  pub refill_rate_per_sec : ℕ

unfoldable pub has_bucket : ℕ → List Bucket → Bool
has_bucket key [] = false
has_bucket key (b ∷ t) = b.bucket_key == key || has_bucket key t

-- `ensureRateLimitBucket`
unfoldable pub ensure_rate_limit_bucket : Bucket → List Bucket → List Bucket
ensure_rate_limit_bucket b t =
    if has_bucket b.bucket_key t then t else record b { tokens = b.capacity } ∷ t

-- `acquireRateLimit`: what `atomic_token_deduct` answers, none if the query throws or answers NULL.
abbrev pub acquire_rate_limit : Option Bool → Bool
acquire_rate_limit none = true
acquire_rate_limit (some allowed) = allowed
