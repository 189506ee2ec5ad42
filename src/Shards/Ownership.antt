-- ===== src/Shards/Ownership.antt =====
-- The shards of the workers of a queue.
use helloplanbuddy_cmd_plan.Base.{
  ℕ, zero, suc, ◌+◌, ◌%◌, ◌≤◌, ◌<◌, ◌≡◌, refl, ap, ◌∙◌, ◌↔◌, inl, inr, Bool, true, ◌&&◌, List, [],
  ◌∷◌, arith, ltb, leb, ◌==◌, ==_iff, Bool-cases,
}
use helloplanbuddy_cmd_plan.Queues.{QueueKey, total_shards}
use helloplanbuddy_cmd_plan.Engine.Claim.{contains, in_shards}
use helloplanbuddy_cmd_plan.Shards.{shards_from, is_mine, or_all, compute_worker_shards}

contains-shards_from :
    (test : ℕ → Bool) (start count k : ℕ)
    → contains (shards_from test start count) k ≡ (leb start k && (ltb k (start + count) && test k))
unfolding contains shards_from
contains-shards_from test start zero k = ground arith
contains-shards_from test start (suc count) k =
    let rest = contains-shards_from test (start + 1) count k in
    elim (Bool-cases (start == k)) [
      | inl e ↦
          let same : test start ≡ test k = ap test ((==_iff start k).0 e) in
          ground (arith, rest, same)
      | inr e ↦ ground (arith, rest)
    ]

-- Shards are taken from a worker's own list only if it has one.
in_shards_own :
    (key : QueueKey) (k j : ℕ) (l : List ℕ)
    → contains l j ≡ true
    → in_shards (or_all key l) k ≡ contains l k
unfolding contains
in_shards_own key k j [] h = cc
in_shards_own key k j (s ∷ ss) h = refl

mod_own : (i n : ℕ) → i < n → i % n ≡ i
mod_own i n h = grind arith

-- With at least one worker and no more workers than shards, a worker claims the jobs of a shard
-- exactly if its index is the remainder of the shard by the number of workers: each shard belongs to
-- one worker and none is left out.
pub shard_owner :
    (key : QueueKey) (workers index shard : ℕ)
    → index < workers
    → workers ≤ total_shards key
    → shard < total_shards key
    → (in_shards (compute_worker_shards index workers key) shard ≡ true) ↔ (index ≡ shard % workers)
unfolding compute_worker_shards
shard_owner key workers index shard lt le sl =
    let own = contains-shards_from (is_mine index workers) 0 (total_shards key) index in
    let it = contains-shards_from (is_mine index workers) 0 (total_shards key) shard in
    let self : index % workers ≡ index = mod_own index workers lt in
    let has : contains (shards_from (is_mine index workers) 0 (total_shards key)) index ≡ true =
      own ∙ ground arith in
    rw (in_shards_own key shard index _ has, it) (ground arith)
