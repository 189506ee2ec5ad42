-- ===== src/Engine/Claim.antt =====
-- atomic-engine.js: `atomicClaim`. Rows that another session has locked are skipped (SKIP LOCKED);
-- which ones these are is an argument.
use helloplanbuddy_cmd_plan.Base.{
  ℕ, ◌+◌, Bool, true, false, not, ◌&&◌, ◌||◌, Option, none, some, List, [], ◌∷◌, map, ltb, leb,
  ◌==◌, if◌then◌else◌, take,
}
use helloplanbuddy_cmd_plan.Queues.{QueueKey, lease_timeout_ms}
use helloplanbuddy_cmd_plan.Engine.Table.{update_where, select}
use helloplanbuddy_cmd_plan.Engine.Jobs.{Job, is_pending, is_due, lease_row}

unfoldable pub contains : List ℕ → ℕ → Bool
contains [] n = false
contains (m ∷ ms) n = m == n || contains ms n

-- The shard clause: no clause if no shard keys are given.
abbrev pub in_shards : List ℕ → ℕ → Bool
in_shards [] s = true
in_shards (k ∷ ks) s = contains (k ∷ ks) s

pub record Request : Type 0 where
  pub key : QueueKey
  pub batch_size : ℕ
  pub worker : ℕ
  pub shard_keys : List ℕ
  pub region : ℕ

-- The `WHERE` of the inner `SELECT`.
unfoldable pub claimable : Request → ℕ → List ℕ → Job → Bool
claimable q now locked r =
    is_pending r.status
    && (is_due r.run_after now
        && (in_shards q.shard_keys r.shard_key
            && (r.region_id == q.region && not (contains locked r.id))))

-- `ORDER BY priority DESC, created_at ASC`
abbrev pub comes_first : Job → Job → Bool
comes_first a b =
    if a.priority == b.priority then leb a.created_at b.created_at else ltb b.priority a.priority

unfoldable pub insert_row : Job → List Job → List Job
insert_row r [] = r ∷ []
insert_row r (s ∷ t) = if comes_first r s then r ∷ s ∷ t else s ∷ insert_row r t

unfoldable pub order_rows : List Job → List Job
unfolding insert_row
order_rows [] = []
order_rows (r ∷ t) = insert_row r (order_rows t)

abbrev pub ids : List Job → List ℕ
ids = map (λ r. r.id)

unfoldable pub chosen : Request → ℕ → List ℕ → List Job → List ℕ
unfolding order_rows claimable
chosen q now locked t = ids (take q.batch_size (order_rows (select (claimable q now locked) t)))

-- The heartbeat row's `drain_requested`, if there is such a row.
abbrev pub is_draining : Option Bool → Bool
is_draining none = false
is_draining (some flag) = flag

-- The `UPDATE … WHERE id IN (…) RETURNING *` of the picked rows; `clock` is the worker's time.
abbrev pub lease_rows : Request → ℕ → ℕ → List ℕ → List Job → List Job × List Job
lease_rows q clock now picked t =
    let leased = λ (r : Job). lease_row q.worker (clock + lease_timeout_ms q.key) now r in
    (
      update_where (λ r. contains picked r.id) leased t,
      map leased (select (λ r. contains picked r.id) t),
    )

-- The table after the claim, and the rows that it returns.
unfoldable pub atomic_claim :
    Request → Option Bool → ℕ → ℕ → List ℕ → List Job → List Job × List Job
atomic_claim q drain clock now locked t =
    if is_draining drain then (t, []) else lease_rows q clock now (chosen q now locked t) t

-- `requestWorkerDrain`
unfoldable pub request_worker_drain : ℕ → List (ℕ × Bool) → List (ℕ × Bool)
request_worker_drain worker t = update_where (λ r. r.0 == worker) (λ r. (r.0, true)) t
