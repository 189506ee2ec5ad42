-- ===== src/Health/Restoring.antt =====
-- Snapshots that are written back.
use helloplanbuddy_cmd_plan.Base.{◌≡◌, refl, sym, ap, ◌∙◌, false, none, [], ◌∷◌, ◌++◌, All}
use mathlib.Core.List.{append-nil, append_assoc}
use helloplanbuddy_cmd_plan.Base.Text.{Text, Store, lookup, insert, text_eq}
use helloplanbuddy_cmd_plan.Health.{Worker, State, default_state}
use helloplanbuddy_cmd_plan.Health.Patches.{
  patch_workers, update_partial, set_state, reset_for_tests, worker_snapshots, get_snapshot,
}

-- Each name of a store stands in it once.
abbrev pub HasDistinctNames : Store Worker → Type 0
HasDistinctNames [] = Unit
HasDistinctNames ((name, w) ∷ m) = All (λ e. text_eq e.0 name ≡ false) m × HasDistinctNames m

abbrev IsFresh : Text → Store Worker → Type 0
IsFresh name acc = All (λ a. text_eq name a.0 ≡ false) acc

abbrev AllFresh : Store Worker → Store Worker → Type 0
AllFresh m acc = All (λ e. IsFresh e.0 acc) m

insert_fresh :
    (name : Text) (w : Worker) (acc : Store Worker)
    → IsFresh name acc
    → (lookup name acc ≡ none) × (insert name w acc ≡ acc ++ ((name, w) ∷ []))
unfolding lookup insert
insert_fresh name w [] h = (refl, refl)
insert_fresh name w ((other, v) ∷ acc) h =
    let (absent, appended) = insert_fresh name w acc h.1 in (rw h.0 absent, rw (h.0, appended) refl)

IsFresh-append :
    (name other : Text) (w : Worker) (acc : Store Worker)
    → IsFresh name acc
    → text_eq name other ≡ false
    → IsFresh name (acc ++ ((other, w) ∷ []))
IsFresh-append name other w [] h e = (e, tt)
IsFresh-append name other w (a ∷ acc) h e = (h.0, IsFresh-append name other w acc h.1 e)

AllFresh-append :
    (other : Text) (w : Worker) (m acc : Store Worker)
    → AllFresh m acc
    → All (λ e. text_eq e.0 other ≡ false) m
    → AllFresh m (acc ++ ((other, w) ∷ []))
AllFresh-append other w [] acc h d = tt
AllFresh-append other w (e ∷ m) acc h d =
    (IsFresh-append e.0 other w acc h.0 d.0, AllFresh-append other w m acc h.1 d.1)

patched_all :
    (m acc : Store Worker)
    → HasDistinctNames m
    → AllFresh m acc
    → patch_workers (worker_snapshots m) acc ≡ acc ++ m
unfolding patch_workers worker_snapshots
patched_all [] acc d f = sym (append-nil acc)
patched_all ((name, w) ∷ m) acc d f =
    let at_name = insert_fresh name w acc f.0 in
    let acc' = acc ++ ((name, w) ∷ []) in
    let ih = patched_all m acc' d.1 (AllFresh-append name w m acc f.1 d.0) in
    ap (patch_workers (worker_snapshots m)) at_name.1 ∙ (ih ∙ append_assoc acc ((name, w) ∷ []) m)

fresh_nil : (m : Store Worker) → AllFresh m []
fresh_nil [] = tt
fresh_nil (e ∷ m) = (tt, fresh_nil m)

-- A snapshot that is written to a state that was reset gives back the state it was taken of, if each
-- worker's name stands in it once.
pub snapshot_restores :
    (s t : State) → HasDistinctNames s.workers → set_state (get_snapshot s) (reset_for_tests t) ≡ s
unfolding update_partial get_snapshot default_state
snapshot_restores s t h = rw (patched_all s.workers [] h (fresh_nil s.workers)) refl
