-- ===== src/Engine/Relay.antt =====
-- Histories of the outbox.
use helloplanbuddy_cmd_plan.Base.{
  ℕ, ◌+◌, ◌≤◌, ◌≡◌, refl, inl, inr, Bool, true, false, Option, some, List, [], ◌∷◌, ◌++◌, map,
  arith, if◌then◌else◌, Bool-cases, All,
}
use helloplanbuddy_cmd_plan.Engine.Table.{
  select_none, update_where, select, All-update_where, map-update_where, update_where_none,
}
use helloplanbuddy_cmd_plan.Engine.Jobs.{is_value}
use helloplanbuddy_cmd_plan.Engine.Outbox.{
  Event, has_key, write_event, claim_outbox_batch, holds, commit_outbox_success, Failure,
  fail_event, write_failed, commit_outbox_failure, reclaimable, reclaim_outbox,
}

-- The statements on the outbox, each by any relay, at any time, with any arguments.
pub data Step : Type 0 where
  writes : Event → Step
  claims : ℕ → Option ℕ → ℕ → (ℕ → Bool) → ℕ → ℕ → Step
  succeeds : ℕ → ℕ → ℕ → ℕ → Step
  fails : ℕ → ℕ → ℕ → Failure → ℕ → ℕ → Step
  reclaims : ℕ → Step

unfoldable pub take_step : Step → List Event → List Event
take_step (writes e) t = (write_event e t).0
take_step (claims worker type limit skips clock now) t =
    (claim_outbox_batch worker type limit skips clock now t).0
take_step (succeeds id worker version now) t = commit_outbox_success id worker version now t
take_step (fails id worker version f clock now) t =
    commit_outbox_failure id worker version f clock now t
take_step (reclaims now) t = reclaim_outbox now t

unfoldable pub run_steps : List Step → List Event → List Event
run_steps [] t = t
run_steps (s ∷ ss) t = run_steps ss (take_step s t)

-- The rows of an idempotency key, told from the keys of the table.
unfoldable pub keyed_rows : ℕ → List (Option ℕ) → ℕ
keyed_rows k [] = 0
keyed_rows k (j ∷ t) = (if is_value j k then 1 else 0) + keyed_rows k t

abbrev pub keys : List Event → List (Option ℕ)
keys = map (λ r. r.idempotency_key)

keyed_rows-snoc :
    (k : ℕ) (e : Event) (t : List Event)
    → keyed_rows k (keys (t ++ (e ∷ [])))
      ≡ keyed_rows k (keys t) + (if is_value e.idempotency_key k then 1 else 0)
unfolding keyed_rows
keyed_rows-snoc k e [] = ground arith
keyed_rows-snoc k e (r ∷ t) = ground (arith, keyed_rows-snoc k e t)

key_missing : (k : ℕ) (t : List Event) → has_key (some k) t ≡ false → keyed_rows k (keys t) ≡ 0
unfolding has_key keyed_rows
key_missing k [] h = refl
key_missing k (r ∷ t) h = ground (arith, key_missing k t)

keys_kept :
    (p : Event → Bool) (f : Event → Event)
    → ((r : Event) → (f r).idempotency_key ≡ r.idempotency_key)
    → (t : List Event) → keys (update_where p f t) ≡ keys t
keys_kept p f same t = map-update_where (λ r. r.idempotency_key) p f same t

write_once :
    (k : ℕ) (e : Event) (t : List Event)
    → keyed_rows k (keys t) ≤ 1
    → keyed_rows k (keys (write_event e t).0) ≤ 1
unfolding write_event
write_once k e t h =
    let more = keyed_rows-snoc k e t in
    elim (Bool-cases (has_key e.idempotency_key t)) [
      | inl known ↦ rw known h
      | inr fresh ↦ elim (Bool-cases (is_value e.idempotency_key k)) [
        | inl own ↦
            let key : e.idempotency_key ≡ some k = ground arith in
            let missing : keyed_rows k (keys t) ≡ 0 = key_missing k t (rw key at fresh) in
            rw fresh (rw (more, own, missing) (omega arith))
        | inr other ↦ rw fresh (rw (more, other) (ground arith))
      ]
    ]

fail_key :
    (f : Failure) (next clock now : ℕ) (r : Event)
    → (fail_event f next clock now r).idempotency_key ≡ r.idempotency_key
unfolding fail_event
fail_key f next clock now r = ground arith

failed_keys :
    (id worker version clock now : ℕ) (f : Failure) (t read : List Event)
    → keys (write_failed id worker version f clock now t read) ≡ keys t
failed_keys id worker version clock now f t [] = refl
failed_keys id worker version clock now f t (r ∷ rest) =
    keys_kept (holds id worker version) _ (fail_key f (r.delivery_attempt + 1) clock now) t

same_bound :
    (k : ℕ) (u t : List Event)
    → keys u ≡ keys t
    → keyed_rows k (keys t) ≤ 1
    → keyed_rows k (keys u) ≤ 1
same_bound k u t e h = rw e h

step_once :
    (k : ℕ) (s : Step) (t : List Event)
    → keyed_rows k (keys t) ≤ 1
    → keyed_rows k (keys (take_step s t)) ≤ 1
unfolding take_step claim_outbox_batch commit_outbox_success commit_outbox_failure reclaim_outbox
step_once k (writes e) t h = write_once k e t h
step_once k (claims worker type limit skips clock now) t h =
    same_bound k _ t (keys_kept _ _ (λ r. refl) t) h
step_once k (succeeds id worker version now) t h = same_bound k _ t (keys_kept _ _ (λ r. refl) t) h
step_once k (fails id worker version f clock now) t h =
    same_bound k _ t
      (failed_keys id worker version clock now f t (select (holds id worker version) t)) h
step_once k (reclaims now) t h = same_bound k _ t (keys_kept _ _ (λ r. refl) t) h

-- Whatever the writers and the relays do, in any order, no idempotency key ever gets a second event.
pub keys_stay_single :
    (k : ℕ) (ss : List Step) (t : List Event)
    → keyed_rows k (keys t) ≤ 1
    → keyed_rows k (keys (run_steps ss t)) ≤ 1
unfolding run_steps
keys_stay_single k [] t h = h
keys_stay_single k (s ∷ ss) t h = keys_stay_single k ss (take_step s t) (step_once k s t h)

-- The rows of an id are leased under a version that has run out, with attempts left.
abbrev pub RanOut : ℕ → ℕ → ℕ → List Event → Type 0
RanOut id version now t =
    All (λ r. r.id ≡ id → (reclaimable now r ≡ true) × (r.lease_version ≡ version)) t

fenced :
    (id worker version now : ℕ) (t : List Event)
    → RanOut id version now t
    → All (λ r. holds id worker version r ≡ false) (reclaim_outbox now t)
unfolding reclaim_outbox holds
fenced id worker version now t h =
    All-update_where _ _ (reclaimable now) _ (λ r a e. ground arith) (λ r a e. ground (arith, a)) t
      h

unread :
    (id worker version : ℕ) (f : Failure) (clock later : ℕ) (t : List Event)
    → All (λ r. holds id worker version r ≡ false) t
    → write_failed id worker version f clock later t (select (holds id worker version) t) ≡ t
unread id worker version f clock later t h = rw (select_none (holds id worker version) t h) refl

-- When the lease of an event has run out and the recovery passes while attempts are left, the relay
-- that held it can change nothing with the version it got: neither its success nor its failure, with
-- any error, at any later time, has an effect.
pub reclaimed_relay_harmless :
    (id worker version now later clock : ℕ) (f : Failure) (t : List Event)
    → RanOut id version now t
    → (commit_outbox_success id worker version later (reclaim_outbox now t) ≡ reclaim_outbox now t)
      × (commit_outbox_failure id worker version f clock later (reclaim_outbox now t)
          ≡ reclaim_outbox now t)
unfolding commit_outbox_success commit_outbox_failure
reclaimed_relay_harmless id worker version now later clock f t h =
    let none_held = fenced id worker version now t h in
    (
      (update_where_none (holds id worker version) _ (reclaim_outbox now t) none_held).0,
      unread id worker version f clock later (reclaim_outbox now t) none_held,
    )
