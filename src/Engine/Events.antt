-- ===== src/Engine/Events.antt =====
-- Histories of a job table: claims, recoveries, heartbeats and commits of any workers, in any order.
-- `fails` is the second statement of `commitFailure`; the attempts it read earlier are its argument.
use helloplanbuddy_cmd_plan.Base.{
  ℕ, ◌+◌, ◌≡◌, refl, ◌∙◌, Bool, true, Option, some, List, [], ◌∷◌, arith, All,
}
use helloplanbuddy_cmd_plan.Queues.{QueueKey}
use helloplanbuddy_cmd_plan.Engine.Table.{All-update_where, All-zip, map-update_where}
use helloplanbuddy_cmd_plan.Engine.Jobs.{
  Job, Failure, Draw, holds, lease_row, reclaimable, reclaim_row, exhausted, exhaust_row,
  succeed_row, fail_row, reclaim_expired, extend_lease, commit_success, write_failure,
  is_processing, is_pending,
}
use helloplanbuddy_cmd_plan.Engine.Claim.{Request, ids, claimable, atomic_claim}
use helloplanbuddy_cmd_plan.Engine.Claiming.{Distinct, chosen_sound, claim_cases}

pub data Event : Type 0 where
  claims : Request → Option Bool → ℕ → ℕ → List ℕ → Event
  reclaims : ℕ → ℕ → Event
  extends : ℕ → ℕ → ℕ → ℕ → ℕ → Event
  succeeds : ℕ → ℕ → ℕ → Option ℕ → ℕ → Event
  fails : ℕ → ℕ → ℕ → ℕ → Draw → ℕ → Failure → Event

unfoldable pub step : QueueKey → List Job → Event → List Job
unfolding reclaim_expired extend_lease commit_success write_failure
step key t (claims q drain clock now locked) = (atomic_claim q drain clock now locked t).0
step key t (reclaims now text) = reclaim_expired key now text t
step key t (extends id worker version ms now) = (extend_lease id worker version ms now t).0
step key t (succeeds id worker version result now) = commit_success id worker version result now t
step key t (fails id worker version seen d now f) =
    write_failure key id worker version seen d now f t

unfoldable pub run : QueueKey → List Job → List Event → List Job
run key t [] = t
run key t (e ∷ es) = run key (step key t e) es

-- No statement changes an id.
pub ids-step : (key : QueueKey) (t : List Job) (e : Event) → ids (step key t e) ≡ ids t
unfolding step
ids-step key t (claims q drain clock now locked) =
    claim_cases (λ t'. ids t' ≡ ids t) q drain clock now locked t refl
      (map-update_where (λ r. r.id) _ _ (λ r. refl) t)
ids-step key t (reclaims now text) =
    map-update_where (λ r. r.id) (exhausted key now) (exhaust_row now text) (λ r. refl) _
    ∙ map-update_where (λ r. r.id) (reclaimable key now) (reclaim_row now) (λ r. refl) t
ids-step key t (extends id worker version ms now) = map-update_where (λ r. r.id) _ _ (λ r. refl) t
ids-step key t (succeeds id worker version result now) =
    map-update_where (λ r. r.id) _ _ (λ r. refl) t
ids-step key t (fails id worker version seen d now f) =
    map-update_where (λ r. r.id) _ _ (λ r. ground arith) t

-- A property of rows that every statement keeps, where its test passes.
pub record IsStable {ℓ} (key : QueueKey) (P : Job → Type ℓ) : Type ℓ where
  pub lease :
      (worker expires now : ℕ) (r : Job)
      → P r
      → is_pending r.status ≡ true
      → P (lease_row worker expires now r)
  pub reclaim : (now : ℕ) (r : Job) → P r → reclaimable key now r ≡ true → P (reclaim_row now r)
  pub exhaust :
      (now text : ℕ) (r : Job) → P r → exhausted key now r ≡ true → P (exhaust_row now text r)
  pub extend :
      (now until : ℕ) (r : Job)
      → P r
      → is_processing r.status ≡ true
      → P (record r { lease_expires_at = some until; updated_at = now })
  pub succeed :
      (now : ℕ) (result : Option ℕ) (r : Job)
      → P r
      → is_processing r.status ≡ true
      → P (succeed_row now result r)
  pub fail :
      (next : ℕ) (d : Draw) (now : ℕ) (f : Failure) (r : Job)
      → P r
      → is_processing r.status ≡ true
      → P (fail_row key next d now f r)

holds_processing :
    (id worker version : ℕ) (r : Job)
    → holds id worker version r ≡ true
    → is_processing r.status ≡ true
unfolding holds
holds_processing id worker version r h = ground arith

claimable_pending :
    (q : Request) (now : ℕ) (locked : List ℕ) (r : Job)
    → claimable q now locked r ≡ true
    → is_pending r.status ≡ true
unfolding claimable
claimable_pending q now locked r h = ground arith

module _ {ℓ} (key : QueueKey) (P : Job → Type ℓ) (stable : IsStable key P) where
  step_stable : (t : List Job) (e : Event) → Distinct (ids t) → All P t → All P (step key t e)
  unfolding step
  step_stable t (claims q drain clock now locked) d h =
      claim_cases (All P) q drain clock now locked t h (
        All-update_where _ P _ _
          (λ r both picked.
            stable.lease q.worker _ now r both.0 (claimable_pending q now locked r (both.1 picked)))
          (λ r both _. both.0) t (All-zip P _ t h (chosen_sound q now locked t d)))
  step_stable t (reclaims now text) d h =
      All-update_where P P _ _ (stable.exhaust now text) (λ r p _. p) _
        (All-update_where P P _ _ (stable.reclaim now) (λ r p _. p) t h)
  step_stable t (extends id worker version ms now) d h =
      All-update_where P P _ _
        (λ r p e. stable.extend now (now + ms) r p (holds_processing id worker version r e))
        (λ r p _. p) t h
  step_stable t (succeeds id worker version result now) d h =
      All-update_where P P _ _
        (λ r p e. stable.succeed now result r p (holds_processing id worker version r e))
        (λ r p _. p) t h
  step_stable t (fails id worker version seen x now f) d h =
      All-update_where P P _ _
        (λ r p e. stable.fail (seen + 1) x now f r p (holds_processing id worker version r e))
        (λ r p _. p) t h

  -- A stable property of all rows holds after every history.
  pub run_stable :
      (t : List Job) (es : List Event) → Distinct (ids t) → All P t → All P (run key t es)
  unfolding run
  run_stable t [] d h = h
  run_stable t (e ∷ es) d h =
      run_stable (step key t e) es (rw (ids-step key t e) d) (step_stable t e d h)
