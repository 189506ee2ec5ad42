-- ===== src/Engine/Logging.antt =====
-- The execution log over time.
use helloplanbuddy_cmd_plan.Base.{
  ℕ, ◌≡◌, refl, ◌∙◌, inl, inr, Bool, true, false, ◌||◌, Option, none, some, List, [], ◌∷◌, arith,
  ◌==◌, Bool-cases, Option-cases,
}
use helloplanbuddy_cmd_plan.Engine.Log.{
  Entry, find_entry, Check, fresh, already_executed, insert_entry, check_execution_idempotency,
  record_execution_result,
}

-- What workers do with the log: a check of a key, or a result for a key.
pub data Step : Type 0 where
  check : ℕ → ℕ → Step
  finish : ℕ → Option ℕ → Step

unfoldable pub step : Step → List Entry → List Entry
step (check key worker) t = (check_execution_idempotency key worker t).0
step (finish key result) t = record_execution_result key result t

unfoldable pub steps : List Step → List Entry → List Entry
steps [] t = t
steps (s ∷ ss) t = steps ss (step s t)

abbrev pub is_logged : ℕ → List Entry → Bool
is_logged key t = elim (find_entry key t) [ none ↦ false | some e ↦ true ]

abbrev pub is_fresh : Check → Bool
is_fresh fresh = true
is_fresh (already_executed r) = false

unfoldable pub logged : ℕ → List Entry → Bool
logged key [] = false
logged key (e ∷ t) = e.operation_key == key || logged key t

logged-record_execution_result :
    (key k : ℕ) (r : Option ℕ) (t : List Entry)
    → logged key (record_execution_result k r t) ≡ logged key t
unfolding logged record_execution_result
logged-record_execution_result key k r [] = refl
logged-record_execution_result key k r (e ∷ t) =
    ground (arith, logged-record_execution_result key k r t)

logged-insert_entry :
    (key k worker : ℕ) (t : List Entry) (o : Option Entry)
    → logged key t ≡ true
    → logged key (insert_entry k worker t o).0 ≡ true
unfolding logged
logged-insert_entry key k worker t none h = ground (arith, h)
logged-insert_entry key k worker t (some e) h = h

step_keeps :
    (key : ℕ) (s : Step) (t : List Entry) → logged key t ≡ true → logged key (step s t) ≡ true
unfolding step check_execution_idempotency
step_keeps key (check k worker) t h = logged-insert_entry key k worker t (find_entry k t) h
step_keeps key (finish k r) t h = logged-record_execution_result key k r t ∙ h

steps_keep :
    (key : ℕ) (ss : List Step) (t : List Entry)
    → logged key t ≡ true
    → logged key (steps ss t) ≡ true
unfolding steps
steps_keep key [] t h = h
steps_keep key (s ∷ ss) t h = steps_keep key ss (step s t) (step_keeps key s t h)

logged_found :
    (key : ℕ) (t : List Entry) → logged key t ≡ true → (e : Entry) × (find_entry key t ≡ some e)
unfolding logged find_entry
logged_found key [] h = absurd (ground (arith, h))
logged_found key (e ∷ t) h = elim (Bool-cases (e.operation_key == key)) [
  | inl here ↦ (e, rw here refl)
  | inr there ↦ rw there (logged_found key t (rw there at h))
]

found_logged :
    (key : ℕ) (t : List Entry) (e : Entry) → find_entry key t ≡ some e → logged key t ≡ true
unfolding logged find_entry
found_logged key [] e h = cc
found_logged key (d ∷ t) e h = elim (Bool-cases (d.operation_key == key)) [
  | inl here ↦ rw here refl
  | inr there ↦ rw there (found_logged key t e (rw there at h))
]

checked_logged :
    (key worker : ℕ) (t : List Entry)
    → logged key (check_execution_idempotency key worker t).0 ≡ true
unfolding check_execution_idempotency logged
checked_logged key worker t = elim (Option-cases (find_entry key t)) [
  | inl missing ↦ rw missing (ground arith)
  | inr (e, known) ↦ rw known (found_logged key t e known)
]

-- Once a key was checked, whatever any workers check and record afterwards, every later check of it
-- says that it was executed: at most one check of a key is ever told to execute, also if the worker
-- that was told so stops before it does.
pub executed_at_most_once :
    (key worker other : ℕ) (ss : List Step) (t : List Entry)
    → is_fresh
        (check_execution_idempotency key other
          (steps ss (check_execution_idempotency key worker t).0)).1
      ≡ false
unfolding check_execution_idempotency
executed_at_most_once key worker other ss t =
    let v = steps ss (check_execution_idempotency key worker t).0 in
    let (e, known) = logged_found key v (
      steps_keep key ss (check_execution_idempotency key worker t).0
        (checked_logged key worker t)) in
    rw known refl
