-- ===== src/Engine/Jobs.antt =====
-- atomic-engine.js: the rows of a job table, and the statements that move them.
-- Worker, row, region and text values are numbers that are only compared. Each statement takes the
-- database clock `now`; a lease or a retry time comes from the worker's own clock.
use helloplanbuddy_cmd_plan.Base.{
  ℕ, ◌+◌, ◌*◌, ◌/◌, ◌^◌, min, Bool, true, false, ◌&&◌, ◌||◌, Option, none, some, List, [], ◌∷◌, ltb,
  leb, ◌==◌, if◌then◌else◌,
}
use helloplanbuddy_cmd_plan.Queues.{QueueKey, max_retry_attempts, retry_delay_baseline_ms}
use helloplanbuddy_cmd_plan.Engine.Table.{update_where, row_count, select}

pub data Status : Type 0 where
  pending processing processed dead_letter : Status

pub record Job : Type 0 where
  pub id : ℕ
  pub status : Status
  pub leased_by : Option ℕ
  pub lease_expires_at : Option ℕ
  pub lease_version : ℕ
  pub attempt_count : ℕ
  pub run_after : Option ℕ
  pub priority : ℕ
  pub created_at : ℕ
  pub updated_at : ℕ
  pub processed_at : Option ℕ
  pub shard_key : ℕ
  pub region_id : ℕ
  pub error : Option ℕ
  pub error_stack : Option ℕ
  pub result : Option ℕ

-- What a worker threw: `errMsg`, `errStack` and `error.forceDeadLetter`.
pub record Failure : Type 0 where
  pub message : ℕ
  pub stack : Option ℕ
  pub force_dead_letter : Bool

abbrev pub is_pending : Status → Bool
is_pending pending = true
is_pending processing = false
is_pending processed = false
is_pending dead_letter = false

abbrev pub is_processing : Status → Bool
is_processing processing = true
is_processing pending = false
is_processing processed = false
is_processing dead_letter = false

-- `column = value`, false on NULL.
abbrev pub is_value : Option ℕ → ℕ → Bool
is_value none v = false
is_value (some u) v = u == v

-- `column < NOW()`, false on NULL.
abbrev pub is_past : Option ℕ → ℕ → Bool
is_past none now = false
is_past (some t) now = ltb t now

-- `run_after IS NULL OR run_after <= NOW()`
abbrev pub is_due : Option ℕ → ℕ → Bool
is_due none now = true
is_due (some t) now = leb t now

-- `WHERE id = $1 AND leased_by = $2 AND lease_version = $3 AND status = 'processing'`
unfoldable pub holds : ℕ → ℕ → ℕ → Job → Bool
holds id worker version r =
    r.id == id
    && (is_value r.leased_by worker && (r.lease_version == version && is_processing r.status))

-- The worker's clock and its random number, the fraction `num / den`.
pub record Draw : Type 0 where
  pub clock : ℕ
  pub num : ℕ
  pub den : ℕ

unfoldable pub backoff_ms : QueueKey → ℕ → ℕ
backoff_ms key attempt = min (10 * 60 * 1000) (retry_delay_baseline_ms key * 2 ^ attempt)

-- `computeNextRunAt`
unfoldable pub compute_next_run_at : QueueKey → ℕ → Draw → ℕ
compute_next_run_at key attempt d = d.clock + d.num * backoff_ms key attempt / d.den

-- The `SET` list of a claim.
abbrev pub lease_row : ℕ → ℕ → ℕ → Job → Job
lease_row worker expires now r = record r {
  status = processing;
  leased_by = some worker;
  lease_expires_at = some expires;
  lease_version = r.lease_version + 1;
  updated_at = now;
}

-- `reclaimExpiredLeases`: the two statements, in their order.
abbrev pub reclaimable : QueueKey → ℕ → Job → Bool
reclaimable key now r =
    is_processing r.status
    && (is_past r.lease_expires_at now && ltb r.attempt_count (max_retry_attempts key))

abbrev pub reclaim_row : ℕ → Job → Job
reclaim_row now r = record r {
  status = pending;
  leased_by = none;
  lease_expires_at = none;
  lease_version = r.lease_version + 1;
  updated_at = now;
}

abbrev pub exhausted : QueueKey → ℕ → Job → Bool
exhausted key now r =
    is_processing r.status
    && (is_past r.lease_expires_at now && leb (max_retry_attempts key) r.attempt_count)

abbrev pub coalesce : Option ℕ → ℕ → Option ℕ
coalesce none v = some v
coalesce (some u) v = some u

abbrev pub exhaust_row : ℕ → ℕ → Job → Job
exhaust_row now text r = record r {
  status = dead_letter;
  lease_version = r.lease_version + 1;
  updated_at = now;
  error = coalesce r.error text;
}

-- Two statements as one step: the second one finds no row of a table that is sound, whatever comes
-- between them.
unfoldable pub reclaim_expired : QueueKey → ℕ → ℕ → List Job → List Job
reclaim_expired key now text t =
    update_where (exhausted key now) (exhaust_row now text)
      (update_where (reclaimable key now) (reclaim_row now) t)

-- `extendLease`: the table, and whether the lease is still held.
unfoldable pub extend_lease : ℕ → ℕ → ℕ → ℕ → ℕ → List Job → List Job × Bool
extend_lease id worker version extend_ms now t = (
  update_where (holds id worker version)
      (λ r. record r { lease_expires_at = some (now + extend_ms); updated_at = now }) t,
  ltb 0 (row_count (holds id worker version) t),
)

-- `commitSuccess`
abbrev pub succeed_row : ℕ → Option ℕ → Job → Job
succeed_row now result r = record r {
  status = processed;
  leased_by = none;
  lease_expires_at = none;
  processed_at = some now;
  updated_at = now;
  result = result;
}

unfoldable pub commit_success : ℕ → ℕ → ℕ → Option ℕ → ℕ → List Job → List Job
commit_success id worker version result now t =
    update_where (holds id worker version) (succeed_row now result) t

-- `commitFailure` reads the attempts of the row that it holds, and then writes in a second
-- statement with the same test. Other sessions may run in between.
unfoldable pub read_attempts : ℕ → ℕ → ℕ → List Job → Option ℕ
read_attempts id worker version t = elim (select (holds id worker version) t) [
  | [] ↦ none
  | r ∷ rest ↦ some r.attempt_count
]

abbrev pub is_dead : QueueKey → ℕ → Failure → Bool
is_dead key next f = leb (max_retry_attempts key) next || f.force_dead_letter

abbrev pub fail_row : QueueKey → ℕ → Draw → ℕ → Failure → Job → Job
fail_row key next d now f r =
    let t = record r {
      leased_by = none;
      lease_expires_at = none;
      attempt_count = next;
      error = some f.message;
      error_stack = f.stack;
      updated_at = now;
    } in
    if is_dead key next f
    then record t { status = dead_letter }
    else record t { status = pending; run_after = some (compute_next_run_at key next d) }

-- The second statement, after `seen` attempts were read.
unfoldable pub write_failure : QueueKey → ℕ → ℕ → ℕ → ℕ → Draw → ℕ → Failure → List Job → List Job
write_failure key id worker version seen d now f t =
    update_where (holds id worker version) (fail_row key (seen + 1) d now f) t

-- The whole of `commitFailure`, with nothing in between.
unfoldable pub commit_failure : QueueKey → ℕ → ℕ → ℕ → Draw → ℕ → Failure → List Job → List Job
unfolding read_attempts write_failure
commit_failure key id worker version d now f t = elim (read_attempts id worker version t) [
  | none ↦ t
  | some seen ↦ write_failure key id worker version seen d now f t
]
