-- ===== src/Engine/Outbox.antt =====
-- atomic-engine.js: the outbox. Types, topics, keys and texts are numbers that are only compared; the
-- payload is not read. Each statement takes the database clock `now`, and a lease or a retry time
-- comes from the relay's own clock.
use helloplanbuddy_cmd_plan.Base.{
  ℕ, ◌+◌, ◌*◌, ◌^◌, min, Bool, true, false, not, ◌&&◌, ◌||◌, Option, none, some, List, [], ◌∷◌,
  ◌++◌, map, ltb, leb, ◌==◌, if◌then◌else◌, take,
}
use helloplanbuddy_cmd_plan.Engine.Table.{update_where, select}
use helloplanbuddy_cmd_plan.Engine.Claim.{contains}
use helloplanbuddy_cmd_plan.Engine.Jobs.{is_value, is_past, is_due}

pub data Delivery : Type 0 where
  pending processing delivered dead_letter : Delivery

pub record Event : Type 0 where
  pub id : ℕ
  pub status : Delivery
  pub aggregate_type : ℕ
  pub idempotency_key : Option ℕ
  pub sequence_number : ℕ
  pub leased_by : Option ℕ
  pub lease_expires_at : Option ℕ
  pub lease_version : ℕ
  pub delivery_attempt : ℕ
  pub max_attempts : ℕ
  pub run_after : Option ℕ
  pub last_error : Option ℕ
  pub delivered_at : Option ℕ
  pub updated_at : ℕ

abbrev pub is_pending : Delivery → Bool
is_pending pending = true
is_pending processing = false
is_pending delivered = false
is_pending dead_letter = false

abbrev pub is_processing : Delivery → Bool
is_processing pending = false
is_processing processing = true
is_processing delivered = false
is_processing dead_letter = false

-- A unique column meets a value; NULL meets nothing.
abbrev pub same_key : Option ℕ → Option ℕ → Bool
same_key none k = false
same_key (some u) k = is_value k u

unfoldable pub has_key : Option ℕ → List Event → Bool
has_key k [] = false
has_key k (r ∷ t) = same_key r.idempotency_key k || has_key k t

-- `writeOutboxEvent`: the inserted row's id, `none` on a conflict of the idempotency key.
unfoldable pub write_event : Event → List Event → List Event × Option ℕ
write_event e t = if has_key e.idempotency_key t then (t, none) else (t ++ (e ∷ []), some e.id)

-- The rows that a claim of `aggregateType` may take; `none` is any type.
abbrev pub of_type : Option ℕ → Event → Bool
of_type none r = true
of_type (some t) r = r.aggregate_type == t

abbrev pub claimable : Option ℕ → ℕ → Event → Bool
claimable type now r = is_pending r.status && (is_due r.run_after now && of_type type r)

-- `ORDER BY sequence_number ASC`
unfoldable pub insert_event : Event → List Event → List Event
insert_event e [] = e ∷ []
insert_event e (r ∷ t) =
    let rest = insert_event e t in
    if leb e.sequence_number r.sequence_number then e ∷ r ∷ t else r ∷ rest

unfoldable pub in_sequence : List Event → List Event
in_sequence [] = []
in_sequence (e ∷ t) = insert_event e (in_sequence t)

-- The ids that the inner SELECT returns; `skips` are the rows that other sessions have locked.
unfoldable pub chosen : Option ℕ → ℕ → (ℕ → Bool) → ℕ → List Event → List ℕ
chosen type limit skips now t =
    map (λ r. r.id)
      (take limit (in_sequence (select (λ r. claimable type now r && not (skips r.id)) t)))

abbrev pub lease_event : ℕ → ℕ → ℕ → Event → Event
lease_event worker expires now r = record r {
  status = processing;
  leased_by = some worker;
  lease_expires_at = some expires;
  lease_version = r.lease_version + 1;
  updated_at = now;
}

-- The `UPDATE … WHERE id IN (…) RETURNING *` of the picked rows.
abbrev pub lease_events : ℕ → ℕ → ℕ → List ℕ → List Event → List Event × List Event
lease_events worker clock now picked t = (
  update_where (λ r. contains picked r.id) (lease_event worker (clock + 30000) now) t,
  map (lease_event worker (clock + 30000) now) (select (λ r. contains picked r.id) t),
)

-- `claimOutboxBatch`: the table after it, and the rows that it returns.
unfoldable pub claim_outbox_batch :
    ℕ → Option ℕ → ℕ → (ℕ → Bool) → ℕ → ℕ → List Event → List Event × List Event
claim_outbox_batch worker type limit skips clock now t =
    lease_events worker clock now (chosen type limit skips now t) t

unfoldable pub holds : ℕ → ℕ → ℕ → Event → Bool
holds id worker version r =
    r.id == id
    && (is_value r.leased_by worker && (r.lease_version == version && is_processing r.status))

-- `commitOutboxSuccess`
unfoldable pub commit_outbox_success : ℕ → ℕ → ℕ → ℕ → List Event → List Event
commit_outbox_success id worker version now t =
    update_where (holds id worker version)
      (λ r. record r {
        status = delivered;
        leased_by = none;
        lease_expires_at = none;
        delivered_at = some now;
        updated_at = now;
      })
      t

-- What the relay threw, and the argument `maxAttempts`.
pub record Failure : Type 0 where
  pub message : ℕ
  pub force_dead_letter : Bool
  pub max_attempts : ℕ

abbrev pub retry_at : ℕ → ℕ → ℕ
retry_at clock next = clock + min (500 * 2 ^ next) (5 * 60000)

unfoldable pub fail_event : Failure → ℕ → ℕ → ℕ → Event → Event
fail_event f next clock now r =
    let t = record r {
      leased_by = none;
      lease_expires_at = none;
      delivery_attempt = next;
      last_error = some f.message;
      updated_at = now;
    } in
    if leb f.max_attempts next || f.force_dead_letter
    then record t { status = dead_letter }
    else record t { status = pending; run_after = some (retry_at clock next) }

-- `commitOutboxFailure`: the attempts are read, and then written under the same test.
abbrev pub write_failed : ℕ → ℕ → ℕ → Failure → ℕ → ℕ → List Event → List Event → List Event
write_failed id worker version f clock now t [] = t
write_failed id worker version f clock now t (r ∷ rest) =
    update_where (holds id worker version) (fail_event f (r.delivery_attempt + 1) clock now) t

unfoldable pub commit_outbox_failure : ℕ → ℕ → ℕ → Failure → ℕ → ℕ → List Event → List Event
commit_outbox_failure id worker version f clock now t =
    write_failed id worker version f clock now t (select (holds id worker version) t)

-- `reclaimExpiredOutboxLeases`
abbrev pub reclaimable : ℕ → Event → Bool
reclaimable now r =
    is_processing r.status
    && (is_past r.lease_expires_at now && ltb r.delivery_attempt r.max_attempts)

unfoldable pub reclaim_outbox : ℕ → List Event → List Event
reclaim_outbox now t =
    update_where (reclaimable now)
      (λ r. record r {
        status = pending;
        leased_by = none;
        lease_expires_at = none;
        lease_version = r.lease_version + 1;
        updated_at = now;
      })
      t
