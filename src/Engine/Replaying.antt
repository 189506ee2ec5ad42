-- ===== src/Engine/Replaying.antt =====
-- Histories of the journal of side effects.
use helloplanbuddy_cmd_plan.Base.{
  ℕ, ◌≡◌, refl, sym, ap, ◌∙◌, ◌≢◌, inl, inr, Bool, true, false, Option, none, some, List, [], ◌∷◌,
  arith, ◌==◌, Bool-cases, All,
}
use helloplanbuddy_cmd_plan.Engine.Table.{update_where}
use helloplanbuddy_cmd_plan.Engine.Journal.{
  Effect, already, to_execute, find_effect, start_effect, slot_of, update_effect, executing,
  mark_executing, open_found, open_slot, acquire_slot, complete_row, complete_effect,
  fail_effect_row, fail_effect,
}

-- Steps of any workers. An acquisition is two: up to its INSERT and SELECT, and its UPDATE.
pub data Call : Type 0 where
  opens : ℕ → ℕ → ℕ → Call
  starts : ℕ → ℕ → Call
  completes : ℕ → Option ℕ → ℕ → Option ℕ → ℕ → Call
  fails : ℕ → ℕ → Bool → Call

unfoldable pub take_call : Call → List Effect → List Effect
take_call (opens key hash token) t = (open_slot key hash token t).0
take_call (starts key now) t = mark_executing key now t
take_call (completes key response hash status now) t =
    complete_effect key response hash status now t
take_call (fails key message query_fails) t = fail_effect key message query_fails t

unfoldable pub take_calls : List Call → List Effect → List Effect
take_calls [] t = t
take_calls (c ∷ cs) t = take_calls cs (take_call c t)

-- The step writes no state of the operation, but perhaps opens it.
abbrev pub Spares : ℕ → Call → Type 0
Spares key (opens k hash token) = Unit
Spares key (starts k now) = k ≢ key
Spares key (completes k response hash status now) = k ≢ key
Spares key (fails k message query_fails) = k ≢ key

find_updated :
    (key : ℕ) (f : Effect → Effect) (e : Effect) (t : List Effect)
    → ((r : Effect) → (f r).operation_key ≡ r.operation_key)
    → find_effect key t ≡ some e
    → find_effect key (update_effect key f t) ≡ some (f e)
unfolding find_effect update_effect update_where
find_updated key f e [] same h = absurd (ground arith)
find_updated key f e (r ∷ t) same h = elim (Bool-cases (r.operation_key == key)) [
  | inl hit ↦
      let found : some r ≡ some e = rw hit at h in
      let one : r ≡ e = cc in
      let own : ((f r).operation_key == key) ≡ true = rw (same r) hit in
      rw (hit, own) (ap (λ k. some (f k)) one)
  | inr miss ↦ rw (miss, miss) (find_updated key f e t same (rw miss at h))
]

find_other :
    (key other : ℕ) (f : Effect → Effect) (t : List Effect)
    → ((r : Effect) → (f r).operation_key ≡ r.operation_key)
    → other ≢ key
    → find_effect key (update_effect other f t) ≡ find_effect key t
unfolding find_effect update_effect update_where
find_other key other f [] same ne = refl
find_other key other f (r ∷ t) same ne =
    let rest = find_other key other f t same ne in
    elim (Bool-cases (r.operation_key == other)) [
      | inl hit ↦
          let miss : (r.operation_key == key) ≡ false = ground arith in
          let away : ((f r).operation_key == key) ≡ false = rw (same r) miss in
          rw (hit, away, miss) rest
      | inr miss ↦ rw (miss, rest) refl
    ]

find_started :
    (key k hash token : ℕ) (t : List Effect)
    → k ≢ key
    → find_effect key (start_effect k hash token ∷ t) ≡ find_effect key t
unfolding find_effect
find_started key k hash token t ne = let miss : (k == key) ≡ false = ground arith in rw miss refl

empty_differs : (e : Effect) → none ≢ some e
empty_differs e h = absurd (ground arith)

open_keeps :
    (key k hash token : ℕ) (e : Effect) (t : List Effect) (found : Option Effect)
    → find_effect key t ≡ some e
    → find_effect k t ≡ found
    → find_effect key (open_found k hash token t found).0 ≡ some e
open_keeps key k hash token e t (some r) h g = h
open_keeps key k hash token e t none h g =
    let ne : k ≢ key = λ same. empty_differs e (sym g ∙ ap (λ i. find_effect i t) same ∙ h) in
    find_started key k hash token t ne ∙ h

fail_spares :
    (key k message : ℕ) (query_fails : Bool) (e : Effect) (t : List Effect)
    → k ≢ key
    → find_effect key t ≡ some e
    → find_effect key (fail_effect k message query_fails t) ≡ some e
unfolding fail_effect
fail_spares key k message true e t ne h = h
fail_spares key k message false e t ne h = find_other key k _ t (λ r. refl) ne ∙ h

call_keeps :
    (key : ℕ) (c : Call) (e : Effect) (t : List Effect)
    → Spares key c
    → find_effect key t ≡ some e
    → find_effect key (take_call c t) ≡ some e
unfolding take_call open_slot mark_executing complete_effect
call_keeps key (opens k hash token) e t s h =
    open_keeps key k hash token e t (find_effect k t) h refl
call_keeps key (starts k now) e t s h = find_other key k _ t (λ r. refl) s ∙ h
call_keeps key (completes k response hash status now) e t s h =
    find_other key k _ t (λ r. refl) s ∙ h
call_keeps key (fails k message query_fails) e t s h = fail_spares key k message query_fails e t s h

calls_keep :
    (key : ℕ) (cs : List Call) (e : Effect) (t : List Effect)
    → All (Spares key) cs
    → find_effect key t ≡ some e
    → find_effect key (take_calls cs t) ≡ some e
unfolding take_calls
calls_keep key [] e t s h = h
calls_keep key (c ∷ cs) e t s h =
    calls_keep key cs e (take_call c t) s.1 (call_keeps key c e t s.0 h)

acquire_found :
    (key hash token now : ℕ) (e : Effect) (t : List Effect)
    → find_effect key t ≡ some e
    → (acquire_slot key hash token now t).1 ≡ slot_of e.state e
unfolding acquire_slot open_slot
acquire_found key hash token now e t h = rw h refl

-- When a side effect in the journal is completed, then, whatever acquisitions are opened by any worker
-- and whatever is written for other operations, every later worker is told that it was executed and
-- gets the response that was stored, as long as no other outcome is written for the operation and no
-- worker that inserted its row earlier only now sets it to executing.
pub completed_skips :
    (key : ℕ) (response : Option ℕ) (hash now : ℕ) (status : Option ℕ) (e : Effect) (cs : List Call)
    (other token later : ℕ) (t : List Effect)
    → find_effect key t ≡ some e
    → All (Spares key) cs
    → (acquire_slot key other token later
        (take_calls cs (complete_effect key response hash status now t))).1
      ≡ already response e.replay_token
unfolding complete_effect
completed_skips key response hash now status e cs other token later t h s =
    acquire_found key other token later (complete_row response hash status now e) _ (
      calls_keep key cs (complete_row response hash status now e) _ s
        (find_updated key (complete_row response hash status now) e t (λ r. refl) h))

-- A failure that is reported after the completion, while its query works, makes the next worker
-- execute the side effect again.
pub late_failure_executes_again :
    (key : ℕ) (response : Option ℕ) (hash now : ℕ) (status : Option ℕ) (e : Effect)
    (message other token later : ℕ) (t : List Effect)
    → find_effect key t ≡ some e
    → (acquire_slot key other token later
        (fail_effect key message false (complete_effect key response hash status now t))).1
      ≡ to_execute (some e.replay_token)
unfolding complete_effect fail_effect
late_failure_executes_again key response hash now status e message other token later t h =
    acquire_found key other token later
      (fail_effect_row message (complete_row response hash status now e)) _
      (find_updated key (fail_effect_row message) (complete_row response hash status now e) _
        (λ r. refl) (find_updated key (complete_row response hash status now) e t (λ r. refl) h))

-- A worker that stalls between its INSERT and its UPDATE, until another one has executed and completed
-- the side effect, sets it back, and the next worker executes it again.
pub late_start_executes_again :
    (key : ℕ) (response : Option ℕ) (hash now : ℕ) (status : Option ℕ) (e : Effect)
    (stalled other token later : ℕ) (t : List Effect)
    → find_effect key t ≡ some e
    → (acquire_slot key other token later
        (mark_executing key stalled (complete_effect key response hash status now t))).1
      ≡ to_execute (some e.replay_token)
unfolding complete_effect mark_executing
late_start_executes_again key response hash now status e stalled other token later t h =
    let done = complete_row response hash status now in
    let start : Effect → Effect = λ r. record r { state = executing; executed_at = some stalled } in
    acquire_found key other token later (start (done e)) _
      (find_updated key start (done e) _ (λ r. refl) (find_updated key done e t (λ r. refl) h))
