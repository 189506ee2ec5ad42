-- ===== src/Engine/Fencing.antt =====
-- Lease versions fence off a worker whose lease was taken away, and a processed row is final.
use helloplanbuddy_cmd_plan.Base.{
  ℕ, ◌+◌, ◌<◌, ◌≡◌, ◌⊎◌, inl, inr, true, false, Option, none, some, List, arith, All, All-map,
}
use helloplanbuddy_cmd_plan.Queues.{QueueKey}
use helloplanbuddy_cmd_plan.Engine.Table.{update_where_none, select_none, All-update_where}
use helloplanbuddy_cmd_plan.Engine.Jobs.{
  Job, processing, processed, Failure, Draw, holds, extend_lease, commit_success, write_failure,
  commit_failure, read_attempts, is_past, reclaim_expired, exhausted,
}
use helloplanbuddy_cmd_plan.Engine.Claim.{ids}
use helloplanbuddy_cmd_plan.Engine.Claiming.{Distinct}
use helloplanbuddy_cmd_plan.Engine.Events.{
  Event, reclaims, IsStable, step, ids-step, run, run_stable,
}

-- The row `i` has moved on to a version after `v`.
abbrev pub Fenced : ℕ → ℕ → Job → Type 0
Fenced i v r = r.id ≡ i → v < r.lease_version

Fenced-IsStable : (key : QueueKey) (i v : ℕ) → IsStable key (Fenced i v)
Fenced-IsStable key i v = record {
  lease = λ worker expires now r p h e. omega (arith, p e);
  reclaim = λ now r p h e. omega (arith, p e);
  exhaust = λ now text r p h e. omega (arith, p e);
  extend = λ now until r p h e. p e;
  succeed = λ now result r p h e. p e;
  fail = λ next d now f r p h e. ground (arith, p);
}

Fenced-holds : (i w v : ℕ) (r : Job) → Fenced i v r → holds i w v r ≡ false
unfolding holds
Fenced-holds i w v r p = ground (arith, p)

-- No call of a worker with the lease version `v` of row `i` has an effect on the table.
abbrev pub NoEffect : QueueKey → ℕ → ℕ → ℕ → List Job → Type 0
NoEffect key i w v t =
    ((ms now : ℕ) → extend_lease i w v ms now t ≡ (t, false))
    × ((result : Option ℕ) (now : ℕ) → commit_success i w v result now t ≡ t)
    × ((d : Draw) (now : ℕ) (f : Failure) → commit_failure key i w v d now f t ≡ t)
    × ((seen : ℕ) (d : Draw) (now : ℕ) (f : Failure) → write_failure key i w v seen d now f t ≡ t)

read_none :
    (i w v : ℕ) (t : List Job) → All (λ r. holds i w v r ≡ false) t → read_attempts i w v t ≡ none
unfolding read_attempts
read_none i w v t h = rw (select_none (holds i w v) t h, read_attempts)

fail_none :
    (key : QueueKey) (i w v : ℕ) (d : Draw) (now : ℕ) (f : Failure) (t : List Job)
    → read_attempts i w v t ≡ none
    → commit_failure key i w v d now f t ≡ t
unfolding commit_failure
fail_none key i w v d now f t e = rw (e, commit_failure)

not_held :
    (key : QueueKey) (i w v : ℕ) (t : List Job)
    → All (λ r. holds i w v r ≡ false) t
    → NoEffect key i w v t
unfolding extend_lease commit_success write_failure
not_held key i w v t h = (
  λ ms now.
      let (same, zero_rows) =
        update_where_none (holds i w v)
          (λ r. record r { lease_expires_at = some (now + ms); updated_at = now }) t h in
      rw (same, zero_rows),
  λ result now. (update_where_none (holds i w v) _ t h).0,
  λ d now f. fail_none key i w v d now f t (read_none i w v t h),
  λ seen d now f. (update_where_none (holds i w v) _ t h).0,
)

-- Once row `i` has moved past version `v`, a worker that still has version `v` can never change the
-- table: after any history neither its heartbeats nor its commits have an effect, and a heartbeat
-- tells it that the lease is gone.
pub stale_version_inert :
    (key : QueueKey) (i w v : ℕ) (t : List Job) (es : List Event)
    → Distinct (ids t)
    → All (Fenced i v) t
    → NoEffect key i w v (run key t es)
stale_version_inert key i w v t es d h = not_held key i w v (run key t es) (
    All-map (λ r. Fenced-holds i w v r) (run key t es)
      (run_stable key (Fenced i v) (Fenced-IsStable key i v) t es d h))

-- Row `i` is leased under version `v`, and the lease has run out at `now`.
abbrev pub Expired : ℕ → ℕ → ℕ → Job → Type 0
Expired i v now r =
    r.id ≡ i
    → (r.lease_version ≡ v) × (r.status ≡ processing) × (is_past r.lease_expires_at now ≡ true)

-- Between the two statements of the recovery: moved on, or about to be given up.
abbrev Between : QueueKey → ℕ → ℕ → ℕ → Job → Type 0
Between key i v now r =
    r.id ≡ i → (v < r.lease_version) ⊎ ((r.lease_version ≡ v) × (exhausted key now r ≡ true))

reclaim_fences :
    (key : QueueKey) (i v now text : ℕ) (t : List Job)
    → All (Expired i v now) t
    → All (Fenced i v) (reclaim_expired key now text t)
unfolding reclaim_expired
reclaim_fences key i v now text t h =
    All-update_where (Between key i v now) (Fenced i v) _ _ (λ r p e same. ground (arith, p same))
      (λ r p e same. ground (arith, p same)) _
      (All-update_where (Expired i v now) (Between key i v now) _ _
        (λ r p e same. inl (omega (arith, (p same).0)))
        (λ r p e same. inr ((p same).0, ground (arith, p same))) t h)

ids-reclaim :
    (key : QueueKey) (now text : ℕ) (t : List Job) → ids (reclaim_expired key now text t) ≡ ids t
unfolding step
ids-reclaim key now text t = ids-step key t (reclaims now text)

-- When the lease of row `i` under version `v` has run out and the recovery passes over the table, no
-- worker can use version `v` again: whatever happens afterwards, its calls have no effect.
pub zombie_harmless :
    (key : QueueKey) (i w v now text : ℕ) (t : List Job) (es : List Event)
    → Distinct (ids t)
    → All (Expired i v now) t
    → NoEffect key i w v (run key (step key t (reclaims now text)) es)
unfolding step
zombie_harmless key i w v now text t es d h =
    stale_version_inert key i w v (reclaim_expired key now text t) es
      (rw (ids-reclaim key now text t) d) (reclaim_fences key i v now text t h)

-- Row `i` is the processed row `done`.
abbrev pub IsFinal : ℕ → Job → Job → Type 0
IsFinal i done r = r.id ≡ i → r ≡ done

final_idle :
    (i : ℕ) (done r : Job)
    → done.status ≡ processed
    → IsFinal i done r
    → r.id ≡ i
    → r.status ≡ processed
final_idle i done r h p e = rw (p e) h

Final-IsStable :
    (key : QueueKey) (i : ℕ) (done : Job) → done.status ≡ processed → IsStable key (IsFinal i done)
Final-IsStable key i done h = record {
  lease = λ worker expires now r p b e. absurd (ground (arith, final_idle i done r h p e));
  reclaim = λ now r p b e. absurd (ground (arith, final_idle i done r h p e));
  exhaust = λ now text r p b e. absurd (ground (arith, final_idle i done r h p e));
  extend = λ now until r p b e. absurd (ground (arith, final_idle i done r h p e));
  succeed = λ now result r p b e. absurd (ground (arith, final_idle i done r h p e));
  fail = λ next d now f r p b e. ground (arith, final_idle i done r h p);
}

Final-holds :
    (i w v : ℕ) (done r : Job) → done.status ≡ processed → IsFinal i done r → holds i w v r ≡ false
unfolding holds
Final-holds i w v done r h p = ground (arith, final_idle i done r h p)

-- A processed row is final: after any history it is still the same row, result included, and no
-- worker's commit or heartbeat on it has an effect, under any lease version.
pub processed_stays :
    (key : QueueKey) (i w v : ℕ) (done : Job) (t : List Job) (es : List Event)
    → Distinct (ids t)
    → done.status ≡ processed
    → All (IsFinal i done) t
    → All (IsFinal i done) (run key t es) × NoEffect key i w v (run key t es)
processed_stays key i w v done t es d h p =
    let final = run_stable key (IsFinal i done) (Final-IsStable key i done h) t es d p in
    (
      final,
      not_held key i w v (run key t es)
          (All-map (λ r. Final-holds i w v done r h) (run key t es) final),
    )

-- Row `i` was read under version `v` with `n` attempts.
abbrev pub ReadAs : ℕ → ℕ → ℕ → Job → Type 0
ReadAs i v n r =
    r.id ≡ i
    → (v < r.lease_version)
      ⊎ ((r.lease_version ≡ v) × (r.status ≡ processing → r.attempt_count ≡ n))

ReadAs-IsStable : (key : QueueKey) (i v n : ℕ) → IsStable key (ReadAs i v n)
ReadAs-IsStable key i v n = record {
  lease = λ worker expires now r p h e. ground (arith, p e);
  reclaim = λ now r p h e. ground (arith, p e);
  exhaust = λ now text r p h e. ground (arith, p e);
  extend = λ now until r p h e. ground (arith, p e);
  succeed = λ now result r p h e. ground (arith, p e);
  fail = λ next d now f r p h e. ground (arith, p);
}

ReadAs-holds : (i w v n : ℕ) (r : Job) → ReadAs i v n r → holds i w v r ≡ true → r.attempt_count ≡ n
unfolding holds
ReadAs-holds i w v n r p h = ground (arith, p)

-- The two statements of a failure commit need no transaction: if the first one read `n` attempts of
-- row `i` under version `v`, then after any history of other calls every row that the second one
-- still touches has `n` attempts.
pub failure_read_write :
    (key : QueueKey) (i w v n : ℕ) (t : List Job) (es : List Event)
    → Distinct (ids t)
    → All (ReadAs i v n) t
    → All (λ r. holds i w v r ≡ true → r.attempt_count ≡ n) (run key t es)
failure_read_write key i w v n t es d h =
    All-map (λ r. ReadAs-holds i w v n r) (run key t es)
      (run_stable key (ReadAs i v n) (ReadAs-IsStable key i v n) t es d h)
