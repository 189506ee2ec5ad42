-- ===== src/Engine/Lifecycle.antt =====
-- The life of a job: who holds it, how its attempts are counted, and when it is given up.
use helloplanbuddy_cmd_plan.Base.{
  ℕ, ◌+◌, ◌*◌, ◌/◌, ◌≤◌, ◌<◌, ◌≡◌, refl, ◌∙◌, ◌≢◌, ◌⊎◌, true, false, none, some, List, [], ◌∷◌, map,
  arith, All, All-map,
}
use helloplanbuddy_cmd_plan.Queues.{QueueKey, max_retry_attempts}
use helloplanbuddy_cmd_plan.Engine.Jobs.{
  Job, pending, processing, dead_letter, Failure, Draw, holds, reclaimable, reclaim_row,
  reclaim_expired, exhausted, exhaust_row, extend_lease, compute_next_run_at, backoff_ms, fail_row,
}
use helloplanbuddy_cmd_plan.Engine.Table.{
  update_where, update_where_none, All-update_where, map-update_where,
}
use helloplanbuddy_cmd_plan.Engine.Claim.{ids}
use helloplanbuddy_cmd_plan.Engine.Claiming.{Distinct, claim_cases}
use helloplanbuddy_cmd_plan.Engine.Events.{
  fails, succeeds, extends, reclaims, claims, step, Event, IsStable, run, run_stable,
}

-- A row has a holder and a deadline exactly while it is being processed, and a row that may still run
-- has attempts left.
pub record IsSound (key : QueueKey) (r : Job) : Type 0 where
  pub held : r.status ≡ processing → (r.leased_by ≢ none) × (r.lease_expires_at ≢ none)
  pub free : r.status ≢ processing → (r.leased_by ≡ none) × (r.lease_expires_at ≡ none)
  pub has_attempts :
      (r.status ≡ pending) ⊎ (r.status ≡ processing) → r.attempt_count < max_retry_attempts key

IsSound-IsStable : (key : QueueKey) → IsStable key (IsSound key)
IsSound-IsStable key = record {
  lease = λ worker expires now r p h. ground (arith, p.has_attempts);
  reclaim = λ now r p h. ground (arith, p.has_attempts);
  exhaust = λ now text r p h. ground (arith, p.has_attempts);
  extend = λ now until r p h. ground (arith, p.has_attempts, p.held, p.free);
  succeed = λ now result r p h. ground (arith, p.has_attempts);
  fail = λ next d now f r p h. ground (arith, p.has_attempts);
}

-- Every history keeps the rows sound: a row has a holder and a deadline exactly while it is being
-- processed, and it has attempts left as long as it is pending or being processed.
pub run-IsSound :
    (key : QueueKey) (t : List Job) (es : List Event)
    → Distinct (ids t)
    → All (IsSound key) t
    → All (IsSound key) (run key t es)
run-IsSound key t es d h = run_stable key (IsSound key) (IsSound-IsStable key) t es d h

not_exhausted : (key : QueueKey) (now : ℕ) (r : Job) → IsSound key r → exhausted key now r ≡ false
not_exhausted key now r p = ground (arith, p.has_attempts)

-- In every history that begins with sound rows, the recovery never gives a job up: its second
-- statement finds no row, so an expired lease always puts the job back.
pub recovery_never_gives_up :
    (key : QueueKey) (t : List Job) (es : List Event) (now text : ℕ)
    → Distinct (ids t)
    → All (IsSound key) t
    → reclaim_expired key now text (run key t es)
      ≡ update_where (reclaimable key now) (reclaim_row now) (run key t es)
unfolding reclaim_expired
recovery_never_gives_up key t es now text d h =
    (update_where_none (exhausted key now) (exhaust_row now text)
      (update_where (reclaimable key now) (reclaim_row now) (run key t es))
      (All-map (λ r p. not_exhausted key now r p) _
        (All-update_where (IsSound key) (IsSound key) _ _
          (λ r p e. (IsSound-IsStable key).reclaim now r p e) (λ r p _. p) _
          (run-IsSound key t es d h)))).0

-- What happens when workers only claim, crash and are recovered from.
abbrev pub IsCrash : Event → Type 0
IsCrash (claims q drain clock now locked) = Unit
IsCrash (reclaims now text) = Unit
IsCrash (extends id worker version ms now) = Unit
IsCrash (succeeds id worker version result now) = ⊥
IsCrash (fails id worker version seen d now f) = ⊥

abbrev pub attempts : List Job → List ℕ
attempts = map (λ r. r.attempt_count)

crash_step :
    (key : QueueKey) (t : List Job) (e : Event) → IsCrash e → attempts (step key t e) ≡ attempts t
unfolding step reclaim_expired extend_lease
crash_step key t (claims q drain clock now locked) c =
    claim_cases (λ t'. attempts t' ≡ attempts t) q drain clock now locked t refl
      (map-update_where (λ r. r.attempt_count) _ _ (λ r. refl) t)
crash_step key t (reclaims now text) c =
    map-update_where (λ r. r.attempt_count) (exhausted key now) (exhaust_row now text) (λ r. refl) _
    ∙ map-update_where (λ r. r.attempt_count) (reclaimable key now) (reclaim_row now) (λ r. refl) t
crash_step key t (extends id worker version ms now) c =
    map-update_where (λ r. r.attempt_count) _ _ (λ r. refl) t
crash_step key t (succeeds id worker version result now) c = absurd c
crash_step key t (fails id worker version seen d now f) c = absurd c

-- Crashes are not counted as attempts: however often the jobs are claimed and their leases run out,
-- the attempt counts stay what they were, so a job that kills its worker is retried for ever.
pub crashes_uncounted :
    (key : QueueKey) (t : List Job) (es : List Event)
    → All IsCrash es
    → attempts (run key t es) ≡ attempts t
unfolding run
crashes_uncounted key t [] c = refl
crashes_uncounted key t (e ∷ es) c =
    crashes_uncounted key (step key t e) es c.1 ∙ crash_step key t e c.0

backoff_capped : (key : QueueKey) (n : ℕ) → backoff_ms key n ≤ 600000
unfolding backoff_ms
backoff_capped key n = omega arith

share_le : (a b x : ℕ) → a ≤ b → a * x / b ≤ x
share_le a b x h = grind arith

-- A retry is scheduled at most ten minutes after the worker's clock, and not before it, if the
-- random fraction is at most one.
pub retry_bounds :
    (key : QueueKey) (n : ℕ) (d : Draw)
    → d.num ≤ d.den
    → (d.clock ≤ compute_next_run_at key n d) × (compute_next_run_at key n d ≤ d.clock + 600000)
unfolding compute_next_run_at
retry_bounds key n d h =
    (omega arith, omega (arith, share_le d.num d.den (backoff_ms key n) h, backoff_capped key n))

-- A held job that fails is put back with one more attempt while attempts are left and nothing forces
-- it out; otherwise it is given up. Both release the lease, so that the same commit has no effect
-- when it is sent again.
pub failure_outcome :
    (key : QueueKey) (n : ℕ) (d : Draw) (now : ℕ) (f : Failure) (i w v : ℕ) (r : Job)
    → let r' = fail_row key (n + 1) d now f r in
      ((n + 1 < max_retry_attempts key
          → f.force_dead_letter ≡ false
          → (r'.status ≡ pending) × (r'.run_after ≡ some (compute_next_run_at key (n + 1) d)))
        × ((max_retry_attempts key ≤ n + 1) ⊎ (f.force_dead_letter ≡ true)
            → r'.status ≡ dead_letter)
        × (r'.attempt_count ≡ n + 1)
        × (r'.leased_by ≡ none)
        × (holds i w v r' ≡ false))
unfolding holds
failure_outcome key n d now f i w v r =
    (λ l e. ground arith, λ l. ground arith, ground arith, ground arith, ground arith)
