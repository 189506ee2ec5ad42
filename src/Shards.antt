-- ===== src/Shards.antt =====
-- shard-router.js: which shard a job goes to, and which shards a worker takes jobs from.
use helloplanbuddy_cmd_plan.Base.{
  ℕ, zero, suc, ◌+◌, ◌%◌, Bool, true, not, ◌&&◌, Option, none, some, List, [], ◌∷◌, map, ◌==◌,
  if◌then◌else◌,
}
use helloplanbuddy_cmd_plan.Queues.{QueueKey, total_shards}
use helloplanbuddy_cmd_plan.Engine.Table.{select}
pub mod Ownership

-- `computeShardKey`: `hash` gives the first eight hexadecimal digits of the id's SHA-256 as a number.
unfoldable pub compute_shard_key : (ℕ → ℕ) → ℕ → QueueKey → ℕ
compute_shard_key hash id key = hash id % total_shards key

-- The loop from `start` over `count` shards that keeps those which pass the test.
unfoldable pub shards_from : (ℕ → Bool) → ℕ → ℕ → List ℕ
shards_from test start zero = []
shards_from test start (suc count) =
    let rest = shards_from test (start + 1) count in if test start then start ∷ rest else rest

-- `s % totalWorkers === workerIndex`; a remainder by 0 is NaN and equals nothing.
abbrev pub is_mine : ℕ → ℕ → ℕ → Bool
is_mine index workers shard = not (workers == 0) && shard % workers == index

-- `Array.from({ length: total }, (_, i) => i)`
abbrev pub all_shards : QueueKey → List ℕ
all_shards key = shards_from (λ shard. true) 0 (total_shards key)

abbrev pub or_all : QueueKey → List ℕ → List ℕ
or_all key [] = all_shards key
or_all key (s ∷ ss) = s ∷ ss

-- `computeWorkerShards`
unfoldable pub compute_worker_shards : ℕ → ℕ → QueueKey → List ℕ
compute_worker_shards index workers key =
    or_all key (shards_from (is_mine index workers) 0 (total_shards key))

-- The rows of queue_shards of one queue.
pub record Shard : Type 0 where
  pub number : ℕ
  pub worker_affinity : ℕ
  pub active : Bool

-- `INSERT … ON CONFLICT (queue_key, shard_number) DO UPDATE`
unfoldable pub upsert_shard : ℕ → ℕ → List Shard → List Shard
upsert_shard worker number [] =
    record { number = number; worker_affinity = worker; active = true } ∷ []
upsert_shard worker number (r ∷ t) =
    let rest = upsert_shard worker number t in
    if r.number == number
    then record r { worker_affinity = worker; active = true } ∷ t
    else r ∷ rest

-- The cache of one process, `_affinityCache`, for one queue.
abbrev pub Cache : Type 0
Cache = List (ℕ × List ℕ)

unfoldable pub cached : ℕ → Cache → Option (List ℕ)
cached worker [] = none
cached worker ((w, shards) ∷ c) = if w == worker then some shards else cached worker c

unfoldable pub upsert_all : ℕ → List ℕ → List Shard → List Shard
upsert_all worker [] t = t
upsert_all worker (n ∷ ns) t = upsert_all worker ns (upsert_shard worker n t)

-- `registerWorkerShards`, where every query works.
unfoldable pub register_worker_shards : ℕ → List ℕ → List Shard × Cache → List Shard × Cache
register_worker_shards worker shards (t, c) = (upsert_all worker shards t, (worker, shards) ∷ c)

-- The rows of the worker, or all shards if it has none.
abbrev pub found_shards : QueueKey → ℕ → Cache → List ℕ → Cache × List ℕ
found_shards key worker c [] = (c, all_shards key)
found_shards key worker c (s ∷ ss) = ((worker, s ∷ ss) ∷ c, s ∷ ss)

abbrev pub look_up_shards :
    QueueKey → ℕ → Bool → List Shard → Cache → Option (List ℕ) → Cache × List ℕ
look_up_shards key worker fails t c (some shards) = (c, shards)
look_up_shards key worker fails t c none =
    if fails
    then (c, all_shards key)
    else found_shards key worker c
        (map (λ r. r.number) (select (λ r. r.worker_affinity == worker && r.active) t))

-- `getWorkerShards`; `fails` is a query that throws.
unfoldable pub get_worker_shards : QueueKey → ℕ → Bool → List Shard → Cache → Cache × List ℕ
get_worker_shards key worker fails t c = look_up_shards key worker fails t c (cached worker c)

-- `clearCache`
unfoldable pub clear_cache : ℕ → Cache → Cache
clear_cache worker [] = []
clear_cache worker ((w, shards) ∷ c) =
    let rest = clear_cache worker c in if w == worker then rest else (w, shards) ∷ rest
