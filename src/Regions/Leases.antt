-- ===== src/Regions/Leases.antt =====
-- Histories of the leader lock.
use helloplanbuddy_cmd_plan.Base.{
  ℕ, ◌+◌, ◌≤◌, ◌<◌, ◌≡◌, refl, ◌≢◌, inl, inr, true, false, ◌&&◌, Option, none, some, List, [], ◌∷◌,
  arith, ltb, leb, ◌==◌, Bool-cases, All, All-map,
}
use helloplanbuddy_cmd_plan.Regions.{
  Lock, Manager, smooth, acquire_fails, insert_first, acquire_region_leader, after_acquire, tick,
  try_acquire_leadership,
}

-- Calls of acquire_region_leader, each by a region at a time.
unfoldable pub acquire_all : ℕ → List (ℕ × ℕ) → Option Lock → Option Lock
acquire_all lease [] l = l
acquire_all lease ((region, now) ∷ calls) l =
    acquire_all lease calls (acquire_region_leader region lease now l).0

-- The lock is held by the region, under at least the epoch, until at least the time.
abbrev pub HeldBy : ℕ → ℕ → ℕ → Option Lock → Type 0
HeldBy region epoch until none = ⊥
HeldBy region epoch until (some l) =
    (l.region ≡ region) × (l.epoch ≡ epoch) × (until ≤ l.expires_at)

held_step :
    (region epoch until other lease now : ℕ) (l : Lock)
    → HeldBy region epoch until (some l)
    → now < until
    → until ≤ now + lease
    → HeldBy region epoch until (acquire_region_leader other lease now (some l)).0
      × ((acquire_region_leader other lease now (some l)).1 ≡ true → other ≡ region)
unfolding acquire_region_leader
held_step region epoch until other lease now l h lt le =
    elim (Bool-cases (l.region == other && ltb now l.expires_at)) [
      | inl e ↦ rw e ((h.0, h.1, le), λ k. ground arith)
      | inr e ↦
          let alive : leb l.expires_at now ≡ false = ground arith in rw (e, alive) (h, λ k. cc)
    ]

held_keep :
    (region epoch until other lease now : ℕ) (l : Option Lock)
    → HeldBy region epoch until l
    → now < until
    → until ≤ now + lease
    → HeldBy region epoch until (acquire_region_leader other lease now l).0
      × ((acquire_region_leader other lease now l).1 ≡ true → other ≡ region)
held_keep region epoch until other lease now none h lt le = absurd h
held_keep region epoch until other lease now (some l) h lt le =
    held_step region epoch until other lease now l h lt le

held_through :
    (region epoch until lease : ℕ) (calls : List (ℕ × ℕ)) (l : Option Lock)
    → HeldBy region epoch until l
    → All (λ c. (c.1 < until) × (until ≤ c.1 + lease)) calls
    → HeldBy region epoch until (acquire_all lease calls l)
unfolding acquire_all
held_through region epoch until lease [] l h b = h
held_through region epoch until lease ((other, now) ∷ calls) l h b =
    held_through region epoch until lease calls (acquire_region_leader other lease now l).0
      (held_keep region epoch until other lease now l h b.0.0 b.0.1).0 b.1

acquired_holds :
    (region lease now : ℕ) (l : Option Lock)
    → (acquire_region_leader region lease now l).1 ≡ true
    → (epoch : ℕ) × HeldBy region epoch (now + lease) (acquire_region_leader region lease now l).0
unfolding acquire_region_leader
acquired_holds region lease now none h = (1, (refl, refl, omega arith))
acquired_holds region lease now (some l) h =
    elim (Bool-cases (l.region == region && ltb now l.expires_at)) [
      | inl e ↦ rw e (l.epoch, (ground arith, refl, omega arith))
      | inr e ↦ elim (Bool-cases (leb l.expires_at now)) [
        | inl dead ↦ rw (e, dead) (l.epoch + 1, (refl, refl, omega arith))
        | inr alive ↦ absurd (ground arith)
      ]
    ]

-- When a region acquires the lead, no other region acquires it before the lease ends, whatever calls
-- any regions make in the meantime, each of which finds the row: a call that succeeds within the lease
-- is by the same region.
pub one_leader :
    (region other lease start now : ℕ) (calls : List (ℕ × ℕ)) (l : Option Lock)
    → (acquire_region_leader region lease start l).1 ≡ true
    → All (λ c. (c.1 < start + lease) × (start ≤ c.1)) calls
    → start ≤ now
    → now < start + lease
    → (acquire_region_leader other lease now
        (acquire_all lease calls (acquire_region_leader region lease start l).0)).1
      ≡ true
    → other ≡ region
one_leader region other lease start now calls l won within after before again =
    let (epoch, held) = acquired_holds region lease start l won in
    let kept =
      held_through region epoch (start + lease) lease calls
        (acquire_region_leader region lease start l).0 held
        (All-map (λ c b. (b.0, omega (arith, b.1))) calls within) in
    (held_keep region epoch (start + lease) other lease now
        (acquire_all lease calls (acquire_region_leader region lease start l).0) kept before
        (omega arith)).1
      again

abbrev pub epoch_of : Option Lock → ℕ
epoch_of none = 0
epoch_of (some l) = l.epoch

abbrev pub holder_of : Option Lock → Option ℕ
holder_of none = none
holder_of (some l) = some l.region

-- The epoch never falls, and it rises whenever the lock passes from one region to another.
pub epoch_fences :
    (region lease now : ℕ) (l : Option Lock)
    → let m = (acquire_region_leader region lease now l).0 in
      (epoch_of l ≤ epoch_of m) × (holder_of m ≢ holder_of l → epoch_of l < epoch_of m)
unfolding acquire_region_leader
epoch_fences region lease now none = (omega arith, λ h. omega arith)
epoch_fences region lease now (some l) =
    elim (Bool-cases (l.region == region && ltb now l.expires_at)) [
      | inl e ↦ rw e (omega arith, λ h. absurd (h refl))
      | inr e ↦ elim (Bool-cases (leb l.expires_at now)) [
        | inl dead ↦ rw (e, dead) (omega arith, λ h. omega arith)
        | inr alive ↦ rw (e, alive) (omega arith, λ h. absurd (h refl))
      ]
    ]

-- A leader whose calls to the database fail goes on taking itself for the leader, also when its lease
-- has ended and another region acquires the lead: then both do.
pub unreachable_leader_stays :
    (lease now : ℕ) (l : Lock) (m n : Manager)
    → m.is_primary ≡ true
    → n.running ≡ true
    → l.expires_at ≤ now
    → let (v, n') = tick smooth lease now (some l) n in
      (n'.is_primary ≡ true)
      × ((tick acquire_fails lease now v m).1.is_primary ≡ true)
      × (n'.epoch ≡ l.epoch + 1)
unfolding tick try_acquire_leadership acquire_region_leader
unreachable_leader_stays lease now l m n primary running dead = ground arith

-- Where two managers make their first calls at once, so that neither finds a row, both take themselves
-- for the leader, and under the same epoch, whichever call ends first.
both_lead_first :
    (lease now later : ℕ) (m n : Manager)
    → let (l, m') = after_acquire smooth m (insert_first m.region lease now none) in
      let n' = (after_acquire smooth n (insert_first n.region lease later l)).1 in
      (m'.is_primary ≡ true) × (n'.is_primary ≡ true) × (m'.epoch ≡ n'.epoch)
both_lead_first lease now later m n = (refl, refl, refl)
