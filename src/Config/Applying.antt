-- ===== src/Config/Applying.antt =====
-- Which migrations are run, and in which order.
use helloplanbuddy_cmd_plan.Base.{
  ℕ, ◌+◌, ◌≤◌, ◌≡◌, refl, sym, ◌∙◌, inl, inr, Bool, not, ◌&&◌, List, [], ◌∷◌, ◌++◌, arith, leb,
  if◌then◌else◌, leb→le, Bool-cases, All, All-map,
}
use mathlib.Core.List.{append-nil, append_assoc}
use helloplanbuddy_cmd_plan.Base.Text.{Text, text_eq, any_text}
use helloplanbuddy_cmd_plan.Config.Migrations.{
  File, migrations_of, insert_file, sort_files, get_migration_files, pending_of, Run, apply_each,
  main,
}

-- Each number is at most those behind it.
abbrev pub IsSorted : List File → Type 0
IsSorted [] = Unit
IsSorted (f ∷ fs) = All (λ g. f.number ≤ g.number) fs × IsSorted fs

insert-All :
    (n : ℕ) (f : File) (fs : List File)
    → n ≤ f.number
    → All (λ g. n ≤ g.number) fs
    → All (λ g. n ≤ g.number) (insert_file f fs)
unfolding insert_file
insert-All n f [] h k = (h, tt)
insert-All n f (g ∷ gs) h k = elim (Bool-cases (leb f.number g.number)) [
  | inl e ↦ rw e (h, k)
  | inr e ↦ rw e (k.0, insert-All n f gs h k.1)
]

below-All :
    (a b : ℕ) (fs : List File) → a ≤ b → All (λ g. b ≤ g.number) fs → All (λ g. a ≤ g.number) fs
below-All a b fs h = All-map (λ g k. omega (arith, h, k)) fs

insert-IsSorted : (f : File) (fs : List File) → IsSorted fs → IsSorted (insert_file f fs)
unfolding insert_file
insert-IsSorted f [] h = (tt, tt)
insert-IsSorted f (g ∷ gs) h = elim (Bool-cases (leb f.number g.number)) [
  | inl e ↦
      let le = leb→le f.number g.number e in rw e ((le, below-All f.number g.number gs le h.0), h)
  | inr e ↦
      let le : g.number ≤ f.number = ground (arith, e) in
      rw e (insert-All g.number f gs le h.0, insert-IsSorted f gs h.1)
]

sort-IsSorted : (fs : List File) → IsSorted (sort_files fs)
unfolding sort_files
sort-IsSorted [] = tt
sort-IsSorted (f ∷ fs) = insert-IsSorted f (sort_files fs) (sort-IsSorted fs)

pending-All {κ} :
    (P : File → Type κ) (applied : List Text) (fs : List File)
    → All P fs
    → All P (pending_of applied fs)
unfolding pending_of
pending-All P applied [] h = tt
pending-All P applied (f ∷ fs) h = elim (Bool-cases (any_text (text_eq f.version) applied)) [
  | inl e ↦ rw e (pending-All P applied fs h.1)
  | inr e ↦ rw e (h.0, pending-All P applied fs h.1)
]

pending-IsSorted :
    (applied : List Text) (fs : List File) → IsSorted fs → IsSorted (pending_of applied fs)
unfolding pending_of
pending-IsSorted applied [] h = tt
pending-IsSorted applied (f ∷ fs) h = elim (Bool-cases (any_text (text_eq f.version) applied)) [
  | inl e ↦ rw e (pending-IsSorted applied fs h.1)
  | inr e ↦
      rw e (pending-All (λ g. f.number ≤ g.number) applied fs h.0, pending-IsSorted applied fs h.1)
]

-- How often a property holds of the files of a list.
unfoldable pub how_many : (File → Bool) → List File → ℕ
how_many test [] = 0
how_many test (f ∷ fs) = (if test f then 1 else 0) + how_many test fs

insert_counts :
    (test : File → Bool) (f : File) (fs : List File)
    → how_many test (insert_file f fs) ≡ (if test f then 1 else 0) + how_many test fs
unfolding how_many insert_file
insert_counts test f [] = refl
insert_counts test f (g ∷ gs) = ground (arith, insert_counts test f gs)

sort_counts :
    (test : File → Bool) (fs : List File) → how_many test (sort_files fs) ≡ how_many test fs
unfolding how_many sort_files
sort_counts test [] = refl
sort_counts test (f ∷ fs) = omega (arith, insert_counts test f (sort_files fs), sort_counts test fs)

pending_counts :
    (test : File → Bool) (applied : List Text) (fs : List File)
    → how_many test (pending_of applied fs)
      ≡ how_many (λ f. test f && not (any_text (text_eq f.version) applied)) fs
unfolding how_many pending_of
pending_counts test applied [] = refl
pending_counts test applied (f ∷ fs) = ground (arith, pending_counts test applied fs)

migration_counts :
    (test : File → Bool) (fs : List File)
    → how_many test (migrations_of fs) ≡ how_many (λ f. test f && f.is_migration) fs
unfolding how_many migrations_of
migration_counts test [] = refl
migration_counts test (f ∷ fs) = ground (arith, migration_counts test fs)

module _ {ℓ} {D : Type ℓ} (run_sql : File → D → D × Bool) where
  ran_all : (fs : List File) (r : Run D) → (apply_each run_sql fs r).ran ≡ r.ran ++ fs
  unfolding apply_each
  ran_all [] r = sym (append-nil r.ran)
  ran_all (f ∷ fs) r = ran_all fs _ ∙ append_assoc r.ran (f ∷ []) fs

  -- Every file of a migration whose version was not applied is run exactly as often as it is in the
  -- folder, no other file is, and they are run in the order of their numbers, whether or not earlier ones
  -- fail.
  pub pending_run_in_order :
      (applied : D → List Text) (files : List File) (d : D) (test : File → Bool)
      → let ran = (main run_sql applied files d).0.ran in
        IsSorted ran
        × (how_many test ran
            ≡ how_many
                (λ f. test f && not (any_text (text_eq f.version) (applied d)) && f.is_migration)
                files)
  unfolding main get_migration_files
  pending_run_in_order applied files d test =
      let start : Run D = record { database = d; ran = []; failures = 0 } in
      let ms = migrations_of files in
      let all = ran_all (pending_of (applied d) (sort_files ms)) start in
      let unapplied = λ (f : File). test f && not (any_text (text_eq f.version) (applied d)) in
      rw all (
        pending-IsSorted (applied d) (sort_files ms) (sort-IsSorted ms),
        pending_counts test (applied d) (sort_files ms)
            ∙ (sort_counts unapplied ms ∙ migration_counts unapplied files),
      )
