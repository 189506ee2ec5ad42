-- ===== src/Engine/Claiming.antt =====
-- What a claim takes: only rows that qualify, at most as many as asked for, the foremost first.
use helloplanbuddy_cmd_plan.Base.{
  ℕ, zero, suc, ◌+◌, ◌≤◌, ◌≡◌, refl, ap, ◌∙◌, inl, inr, Bool, true, false, ◌||◌, Option, none, some,
  List, [], ◌∷◌, map, arith, ◌==◌, Bool-cases, length, take, All, length-take-le, drop, All-drop,
  All-map,
}
use helloplanbuddy_cmd_plan.Engine.Table.{row_count, select}
use helloplanbuddy_cmd_plan.Engine.Jobs.{Job}
use helloplanbuddy_cmd_plan.Engine.Claim.{
  lease_rows, is_draining, atomic_claim, Request, contains, ids, claimable, comes_first, insert_row,
  order_rows, chosen,
}

-- No id stands in the list twice: `id` is the primary key.
abbrev pub Distinct : List ℕ → Type 0
Distinct [] = Unit
Distinct (i ∷ is) = (contains is i ≡ false) × Distinct is

ids-select :
    (p : Job → Bool) (i : ℕ) (t : List Job)
    → contains (ids t) i ≡ false
    → contains (ids (select p t)) i ≡ false
unfolding contains select
ids-select p i [] h = refl
ids-select p i (r ∷ t) h = ground (arith, ids-select p i t)

ids-take : (n i : ℕ) (t : List Job) → contains (ids (take n t)) i ≡ true → contains (ids t) i ≡ true
unfolding contains
ids-take zero i t h = cc
ids-take (suc n) i [] h = h
ids-take (suc n) i (r ∷ t) h = ground (arith, ids-take n i t)

ids-insert_row :
    (r : Job) (i : ℕ) (t : List Job)
    → contains (ids (insert_row r t)) i ≡ (r.id == i || contains (ids t) i)
unfolding contains insert_row
ids-insert_row r i [] = refl
ids-insert_row r i (s ∷ t) = ground (arith, ids-insert_row r i t)

ids-order_rows : (i : ℕ) (t : List Job) → contains (ids (order_rows t)) i ≡ contains (ids t) i
unfolding contains order_rows
ids-order_rows i [] = refl
ids-order_rows i (r ∷ t) = ground (arith, ids-insert_row r i (order_rows t), ids-order_rows i t)

absent_rows {ℓ} :
    (P : Job → Type ℓ) (i : ℕ) (t : List Job)
    → contains (ids t) i ≡ false
    → All (λ r. r.id ≡ i → P r) t
unfolding contains
absent_rows P i [] h = tt
absent_rows P i (r ∷ t) h = (λ e. absurd (ground arith), absent_rows P i t (ground arith))

select_sound :
    (p : Job → Bool) (i : ℕ) (t : List Job)
    → Distinct (ids t)
    → contains (ids (select p t)) i ≡ true
    → All (λ r. r.id ≡ i → p r ≡ true) t
unfolding contains select
select_sound p i [] d h = tt
select_sound p i (r ∷ t) d h = elim (Bool-cases (p r)) [
  | inl e ↦ (
    λ _. e,
    elim (Bool-cases (r.id == i)) [
      | inl same ↦ absent_rows _ i t (ground (arith, d.0))
      | inr other ↦ select_sound p i t d.1 (ground (arith, h))
    ],
  )
  | inr e ↦ (
    λ same. absurd (ground (arith, ids-select p i t, d.0)),
    select_sound p i t d.1 (ground (arith, h)),
  )
]

each_id {ℓ} :
    (P : Job → Type ℓ) (picked : List ℕ) (t : List Job)
    → ((i : ℕ) → contains picked i ≡ true → All (λ r. r.id ≡ i → P r) t)
    → All (λ r. contains picked r.id ≡ true → P r) t
each_id P picked [] f = tt
each_id P picked (r ∷ t) f = (λ h. (f r.id h).0 refl, each_id P picked t (λ i h. (f i h).1))

-- A claim takes only rows that are pending and due, that lie in the asked shards and region, and
-- that no other session has locked, if no id stands in the table twice.
pub chosen_sound :
    (q : Request) (now : ℕ) (locked : List ℕ) (t : List Job)
    → Distinct (ids t)
    → All (λ r. contains (chosen q now locked t) r.id ≡ true → claimable q now locked r ≡ true) t
unfolding chosen
chosen_sound q now locked t d = each_id _ (chosen q now locked t) t λ i h.
    select_sound (claimable q now locked) i t d (
      rw (← ids-order_rows i (select (claimable q now locked) t))
        (ids-take q.batch_size i (order_rows (select (claimable q now locked) t)) h))

length-ids : (t : List Job) → length (ids t) ≡ length t
length-ids [] = refl
length-ids (r ∷ t) = ap suc (length-ids t)

count_absent :
    (i : ℕ) (t : List Job) → contains (ids t) i ≡ false → row_count (λ r. i == r.id) t ≡ 0
unfolding contains row_count
count_absent i [] h = refl
count_absent i (r ∷ t) h = ground (arith, count_absent i t)

count_one : (i : ℕ) (t : List Job) → Distinct (ids t) → row_count (λ r. i == r.id) t ≤ 1
unfolding row_count
count_one i [] d = omega arith
count_one i (r ∷ t) d = ground (arith, count_one i t d.1, count_absent i t, d.0)

count_split :
    (i : ℕ) (is : List ℕ) (t : List Job)
    → row_count (λ r. contains (i ∷ is) r.id) t
      ≤ row_count (λ r. i == r.id) t + row_count (λ r. contains is r.id) t
unfolding row_count contains
count_split i is [] = omega arith
count_split i is (r ∷ t) = ground (arith, count_split i is t)

count_nothing : (t : List Job) → row_count (λ r. contains [] r.id) t ≡ 0
unfolding row_count contains
count_nothing [] = refl
count_nothing (r ∷ t) = omega (arith, count_nothing t)

count_picked :
    (is : List ℕ) (t : List Job)
    → Distinct (ids t)
    → row_count (λ r. contains is r.id) t ≤ length is
count_picked [] t d = omega (arith, count_nothing t)
count_picked (i ∷ is) t d = omega (arith, count_split i is t, count_one i t d, count_picked is t d)

length-chosen :
    (q : Request) (now : ℕ) (locked : List ℕ) (t : List Job)
    → length (chosen q now locked t) ≤ q.batch_size
unfolding chosen
length-chosen q now locked t =
    let rows = order_rows (select (claimable q now locked) t) in
    omega (arith, length-ids (take q.batch_size rows), length-take-le q.batch_size rows)

length-select : (p : Job → Bool) (t : List Job) → length (select p t) ≡ row_count p t
unfolding select row_count
length-select p [] = refl
length-select p (r ∷ t) = ground (arith, length-select p t)

length-map-jobs : (f : Job → Job) (t : List Job) → length (map f t) ≡ length t
length-map-jobs f [] = refl
length-map-jobs f (r ∷ t) = ap suc (length-map-jobs f t)

-- A claim returns no more rows than its batch size, and none to a worker that drains, whose claim
-- leaves the table alone; if no id stands in the table twice.
pub claim_bounded :
    (q : Request) (drain : Option Bool) (clock now : ℕ) (locked : List ℕ) (t : List Job)
    → Distinct (ids t)
    → let (t', rows) = atomic_claim q drain clock now locked t in
      (length rows ≤ q.batch_size) × (is_draining drain ≡ true → (rows ≡ []) × (t' ≡ t))
unfolding atomic_claim
claim_bounded q drain clock now locked t d = elim (Bool-cases (is_draining drain)) [
  | inl e ↦ rw e (omega arith, λ _. (refl, refl))
  | inr e ↦
      rw e (omega (arith, leased, count_picked picked t d, length-chosen q now locked t), λ h. cc)
]
  where
    picked : List ℕ
    picked = chosen q now locked t

    leased : length (lease_rows q clock now picked t).1 ≡ row_count (λ r. contains picked r.id) t
    leased = length-map-jobs _ _ ∙ length-select (λ r. contains picked r.id) t

-- The rows are in the order of the claim.
abbrev IsOrdered : List Job → Type 0
IsOrdered [] = Unit
IsOrdered (r ∷ t) = All (λ s. comes_first r s ≡ true) t × IsOrdered t

insert_row-All :
    (P : Job → Type 0) (r : Job) (t : List Job) → P r → All P t → All P (insert_row r t)
unfolding insert_row
insert_row-All P r [] h a = (h, tt)
insert_row-All P r (s ∷ t) h a = elim (Bool-cases (comes_first r s)) [
  | inl e ↦ rw e (h, a)
  | inr e ↦ rw e (a.0, insert_row-All P r t h a.1)
]

comes_first_total : (r s : Job) → comes_first r s ≡ false → comes_first s r ≡ true
comes_first_total r s h = ground arith

comes_first_trans :
    (r s u : Job) → comes_first r s ≡ true → comes_first s u ≡ true → comes_first r u ≡ true
comes_first_trans r s u h k = ground arith

insert_row-IsOrdered : (r : Job) (t : List Job) → IsOrdered t → IsOrdered (insert_row r t)
unfolding insert_row
insert_row-IsOrdered r [] o = (tt, tt)
insert_row-IsOrdered r (s ∷ t) o = elim (Bool-cases (comes_first r s)) [
  | inl e ↦ rw e ((e, All-map (λ u h. comes_first_trans r s u e h) t o.0), o)
  | inr e ↦ rw e (insert_row-All _ r t (comes_first_total r s e) o.0, insert_row-IsOrdered r t o.1)
]

order_rows-IsOrdered : (t : List Job) → IsOrdered (order_rows t)
unfolding order_rows
order_rows-IsOrdered [] = tt
order_rows-IsOrdered (r ∷ t) = insert_row-IsOrdered r (order_rows t) (order_rows-IsOrdered t)

prefix_first :
    (n : ℕ) (t : List Job)
    → IsOrdered t
    → All (λ r. All (λ s. comes_first r s ≡ true) (drop n t)) (take n t)
prefix_first zero t o = tt
prefix_first (suc n) [] o = tt
prefix_first (suc n) (r ∷ t) o = (All-drop _ n t o.0, prefix_first n t o.1)

-- Of the rows that qualify, those that a claim picks come before those that it leaves: a higher
-- priority first, and the older row among equal priorities.
pub claim_in_order :
    (q : Request) (now : ℕ) (locked : List ℕ) (t : List Job)
    → let rows = order_rows (select (claimable q now locked) t) in
      (chosen q now locked t ≡ ids (take q.batch_size rows))
      × All
          (λ r. All (λ s. comes_first r s ≡ true) (drop q.batch_size rows))
          (take q.batch_size rows)
unfolding chosen
claim_in_order q now locked t =
    (refl, prefix_first q.batch_size _ (order_rows-IsOrdered (select (claimable q now locked) t)))

-- A claim leaves the table alone or leases the chosen rows.
pub claim_cases {ℓ} :
    (P : List Job → Type ℓ) (q : Request) (drain : Option Bool) (clock now : ℕ) (locked : List ℕ)
    (t : List Job)
    → P t
    → P (lease_rows q clock now (chosen q now locked t) t).0
    → P (atomic_claim q drain clock now locked t).0
unfolding atomic_claim
claim_cases P q none clock now locked t idle leased = leased
claim_cases P q (some true) clock now locked t idle leased = idle
claim_cases P q (some false) clock now locked t idle leased = leased
