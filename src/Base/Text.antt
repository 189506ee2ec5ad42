-- ===== src/Base/Text.antt =====
-- Text as the list of its code units, and stores with text keys.
use Prim.Native.Nat.{ℕ}
use Prim.Native.Char.{code}
use Prim.Native.String.{String}
use mathlib.Core.Path.{◌≡◌, refl, sym}
use mathlib.Core.Logic.{inl, inr}
use mathlib.Core.Bool.{Bool, true, false, ◌&&◌, ◌||◌}
use mathlib.Core.Option.{Option, none, some}
use mathlib.Core.List.{List, [], ◌∷◌}
use native.Mathlib.Omega.{arith}
use helloplanbuddy_cmd_plan.Base.Tests.{Bool-cases, ◌==◌, if◌then◌else◌}

abbrev pub Text : Type 0
Text = List ℕ

unfoldable pub text_eq : Text → Text → Bool
text_eq [] [] = true
text_eq [] (d ∷ t) = false
text_eq (c ∷ s) [] = false
text_eq (c ∷ s) (d ∷ t) = c == d && text_eq s t

pub text_eq_refl : (s : Text) → text_eq s s ≡ true
unfolding text_eq
text_eq_refl [] = refl
text_eq_refl (c ∷ s) = ground (arith, text_eq_refl s)

pub text_eq→eq : (s t : Text) → text_eq s t ≡ true → s ≡ t
unfolding text_eq
text_eq→eq [] [] h = refl
text_eq→eq [] (d ∷ t) h = cc
text_eq→eq (c ∷ s) [] h = cc
text_eq→eq (c ∷ s) (d ∷ t) h = ground (arith, text_eq→eq s t)

-- The code points of a text literal.
abbrev pub codes : String → Text
codes String.[] = []
codes (String.◌∷◌ c s) = code c ∷ codes s

-- `startsWith`, with the prefix first.
unfoldable pub starts_with : Text → Text → Bool
starts_with [] t = true
starts_with (c ∷ s) [] = false
starts_with (c ∷ s) (d ∷ t) = c == d && starts_with s t

-- `includes`, with the text that is looked for first.
unfoldable pub includes : Text → Text → Bool
includes s [] = starts_with s []
includes s (d ∷ t) = starts_with s (d ∷ t) || includes s t

unfoldable pub any_text : (Text → Bool) → List Text → Bool
any_text test [] = false
any_text test (t ∷ ts) = test t || any_text test ts

abbrev pub Store {ℓ} : Type ℓ → Type ℓ
Store V = List (Text × V)

module _ {ℓ} {V : Type ℓ} where
  unfoldable pub lookup : Text → Store V → Option V
  lookup k [] = none
  lookup k ((j, v) ∷ m) = if text_eq k j then some v else lookup k m

  unfoldable pub insert : Text → V → Store V → Store V
  insert k v [] = (k, v) ∷ []
  insert k v ((j, w) ∷ m) = if text_eq k j then (j, v) ∷ m else (j, w) ∷ insert k v m

  unfoldable pub erase : Text → Store V → Store V
  erase k [] = []
  erase k ((j, w) ∷ m) = if text_eq k j then erase k m else (j, w) ∷ erase k m

  pub lookup-insert_self : (k : Text) (v : V) (m : Store V) → lookup k (insert k v m) ≡ some v
  unfolding lookup insert
  lookup-insert_self k v [] = ground (arith, text_eq_refl k)
  lookup-insert_self k v ((j, w) ∷ m) = ground (arith, lookup-insert_self k v m)

  pub lookup-erase_self : (k : Text) (m : Store V) → lookup k (erase k m) ≡ none
  unfolding lookup erase
  lookup-erase_self k [] = refl
  lookup-erase_self k ((j, w) ∷ m) = ground (arith, lookup-erase_self k m)

  pub lookup-insert_other :
      (k j : Text) (v : V) (m : Store V)
      → text_eq k j ≡ false
      → lookup k (insert j v m) ≡ lookup k m
  unfolding lookup insert
  lookup-insert_other k j v [] h = rw h refl
  lookup-insert_other k j v ((i, w) ∷ m) h = elim (Bool-cases (text_eq j i)) [
    | inl e ↦
        let same : j ≡ i = text_eq→eq j i e in
        let other : text_eq k i ≡ false = rw (sym same) h in ground (arith, other)
    | inr e ↦ ground (arith, lookup-insert_other k j v m h)
  ]

  pub lookup-erase_other :
      (k j : Text) (m : Store V) → text_eq k j ≡ false → lookup k (erase j m) ≡ lookup k m
  unfolding lookup erase
  lookup-erase_other k j [] h = refl
  lookup-erase_other k j ((i, w) ∷ m) h = elim (Bool-cases (text_eq j i)) [
    | inl e ↦
        let same : j ≡ i = text_eq→eq j i e in
        let other : text_eq k i ≡ false = rw (sym same) h in
        ground (arith, other, e, lookup-erase_other k j m h)
    | inr e ↦ ground (arith, e, lookup-erase_other k j m h)
  ]
