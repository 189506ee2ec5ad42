-- ===== src/Engine/Table.antt =====
-- A database table as a list of rows, and the statement `UPDATE … SET f WHERE p`.
use helloplanbuddy_cmd_plan.Base.{
  ℕ, ◌+◌, ◌≡◌, refl, ap, inl, inr, Bool, true, false, List, [], ◌∷◌, map, arith, if◌then◌else◌,
  Bool-cases, All,
}

module _ {ℓ} {A : Type ℓ} where
  unfoldable pub update_where : (A → Bool) → (A → A) → List A → List A
  update_where p f [] = []
  update_where p f (r ∷ t) = (if p r then f r else r) ∷ update_where p f t

  -- `rowCount` of that statement.
  unfoldable pub row_count : (A → Bool) → List A → ℕ
  row_count p [] = 0
  row_count p (r ∷ t) = (if p r then 1 else 0) + row_count p t

  -- The rows that a `SELECT … WHERE p` returns.
  unfoldable pub select : (A → Bool) → List A → List A
  select p [] = []
  select p (r ∷ t) = if p r then r ∷ select p t else select p t

  pub All-update_where {κ μ} :
      (P : A → Type κ) (Q : A → Type μ) (p : A → Bool) (f : A → A)
      → ((r : A) → P r → p r ≡ true → Q (f r))
      → ((r : A) → P r → p r ≡ false → Q r)
      → (t : List A) → All P t
      → All Q (update_where p f t)
  unfolding update_where
  All-update_where P Q p f hit miss [] h = tt
  All-update_where P Q p f hit miss (r ∷ t) h = elim (Bool-cases (p r)) [
    | inl e ↦ rw e (hit r h.0 e, All-update_where P Q p f hit miss t h.1)
    | inr e ↦ rw e (miss r h.0 e, All-update_where P Q p f hit miss t h.1)
  ]

  pub All-zip {κ μ} :
      (P : A → Type κ) (Q : A → Type μ) (t : List A) → All P t → All Q t → All (λ r. P r × Q r) t
  All-zip P Q [] h k = tt
  All-zip P Q (r ∷ t) h k = ((h.0, k.0), All-zip P Q t h.1 k.1)

  -- A statement that leaves a column alone leaves the list of its values alone.
  pub map-update_where {κ} :
      {B : Type κ} (g : A → B) (p : A → Bool) (f : A → A)
      → ((r : A) → g (f r) ≡ g r)
      → (t : List A) → map g (update_where p f t) ≡ map g t
  unfolding update_where
  map-update_where g p f same [] = refl
  map-update_where g p f same (r ∷ t) = elim (Bool-cases (p r)) [
    | inl e ↦ rw (e, same r, map-update_where g p f same t)
    | inr e ↦ rw (e, map-update_where g p f same t)
  ]

  -- A statement whose test no row passes changes nothing and reports no row.
  pub update_where_none :
      (p : A → Bool) (f : A → A) (t : List A)
      → All (λ r. p r ≡ false) t
      → (update_where p f t ≡ t) × (row_count p t ≡ 0)
  unfolding update_where row_count
  update_where_none p f [] h = (refl, refl)
  update_where_none p f (r ∷ t) h =
      let (same, zero_rows) = update_where_none p f t h.1 in
      rw h.0 (ap (◌∷◌ r) same, omega (arith, zero_rows))

  pub select_none : (p : A → Bool) (t : List A) → All (λ r. p r ≡ false) t → select p t ≡ []
  unfolding select
  select_none p [] h = refl
  select_none p (r ∷ t) h = rw h.0 (select_none p t h.1)
