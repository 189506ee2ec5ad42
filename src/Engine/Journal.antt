-- ===== src/Engine/Journal.antt =====
-- atomic-engine.js: the journal of side effects. Keys, hashes, responses and texts are numbers that
-- are only compared; the columns that no statement reads back are left out.
use helloplanbuddy_cmd_plan.Base.{
  ℕ, ◌+◌, Bool, true, false, Option, none, some, List, [], ◌∷◌, ◌==◌, if◌then◌else◌,
}
use helloplanbuddy_cmd_plan.Engine.Table.{update_where}

pub data EffectState : Type 0 where
  initiated executing completed failed : EffectState

pub record Effect : Type 0 where
  pub operation_key : ℕ
  pub request_hash : ℕ
  pub state : EffectState
  pub provider_response : Option ℕ
  pub response_hash : Option ℕ
  pub http_status : Option ℕ
  pub replay_token : ℕ
  pub error : Option ℕ
  pub retry_count : ℕ
  pub executed_at : Option ℕ
  pub completed_at : Option ℕ

-- What `acquireSideEffectSlot` returns: `alreadyExecuted` with the result, or not.
pub data Slot : Type 0 where
  already : Option ℕ → ℕ → Slot
  to_execute : Option ℕ → Slot

unfoldable pub find_effect : ℕ → List Effect → Option Effect
find_effect key [] = none
find_effect key (e ∷ rest) = if e.operation_key == key then some e else find_effect key rest

abbrev pub has_effect : Option Effect → Bool
has_effect none = false
has_effect (some e) = true

abbrev pub start_effect : ℕ → ℕ → ℕ → Effect
start_effect key hash token = record {
  operation_key = key;
  request_hash = hash;
  state = initiated;
  provider_response = none;
  response_hash = none;
  http_status = none;
  replay_token = token;
  error = none;
  retry_count = 0;
  executed_at = none;
  completed_at = none;
}

abbrev pub slot_of : EffectState → Effect → Slot
slot_of completed e = already e.provider_response e.replay_token
slot_of initiated e = to_execute (some e.replay_token)
slot_of executing e = to_execute (some e.replay_token)
slot_of failed e = to_execute (some e.replay_token)

-- `UPDATE side_effect_journal SET … WHERE operation_key = $1`
unfoldable pub update_effect : ℕ → (Effect → Effect) → List Effect → List Effect
update_effect key f t = update_where (λ e. e.operation_key == key) f t

-- The UPDATE of a row that was inserted, which does not look at the state of the row.
unfoldable pub mark_executing : ℕ → ℕ → List Effect → List Effect
mark_executing key now t =
    update_effect key (λ e. record e { state = executing; executed_at = some now }) t

abbrev pub open_found : ℕ → ℕ → ℕ → List Effect → Option Effect → List Effect × Option Slot
open_found key hash token t none = (start_effect key hash token ∷ t, none)
open_found key hash token t (some e) = (t, some (slot_of e.state e))

-- `acquireSideEffectSlot` up to its UPDATE: the INSERT and, where there is a row, the answer, otherwise
-- none; `token` is the default of the inserted row.
unfoldable pub open_slot : ℕ → ℕ → ℕ → List Effect → List Effect × Option Slot
open_slot key hash token t = open_found key hash token t (find_effect key t)

abbrev pub start_slot : ℕ → ℕ → ℕ → List Effect × Option Slot → List Effect × Slot
start_slot key token now (t, none) = (mark_executing key now t, to_execute (some token))
start_slot key token now (t, some slot) = (t, slot)

-- `acquireSideEffectSlot`, where nothing comes between its statements.
unfoldable pub acquire_slot : ℕ → ℕ → ℕ → ℕ → List Effect → List Effect × Slot
acquire_slot key hash token now t = start_slot key token now (open_slot key hash token t)

-- `httpStatus ?? 200`
abbrev pub or_200 : Option ℕ → ℕ
or_200 none = 200
or_200 (some status) = status

abbrev pub complete_row : Option ℕ → ℕ → Option ℕ → ℕ → Effect → Effect
complete_row response hash status now e = record e {
  state = completed;
  provider_response = response;
  response_hash = some hash;
  http_status = some (or_200 status);
  completed_at = some now;
}

-- `completeSideEffect`; `hash` is the fingerprint of the response.
unfoldable pub complete_effect : ℕ → Option ℕ → ℕ → Option ℕ → ℕ → List Effect → List Effect
complete_effect key response hash status now t =
    update_effect key (complete_row response hash status now) t

abbrev pub fail_effect_row : ℕ → Effect → Effect
fail_effect_row message e = record e {
  state = failed;
  error = some message;
  retry_count = e.retry_count + 1;
}

-- `failSideEffect`, which swallows a failure of its own query.
unfoldable pub fail_effect : ℕ → ℕ → Bool → List Effect → List Effect
fail_effect key message query_fails t =
    if query_fails then t else update_effect key (fail_effect_row message) t
