-- ===== src/Regions/Reported.antt =====
-- What the registry says of the leader.
use helloplanbuddy_cmd_plan.Base.{
  ℕ, ◌≡◌, refl, sym, ap, ◌∙◌, ◌≢◌, inl, inr, Bool, true, false, ◌&&◌, Option, none, some, List, [],
  ◌∷◌, arith, ltb, leb, ◌==◌, if◌then◌else◌, Bool-cases, All, All-map,
}
use helloplanbuddy_cmd_plan.Regions.{
  Lock, Manager, Fault, smooth, acquire_fails, read_fails, acquire_region_leader,
  try_acquire_leadership,
}
use helloplanbuddy_cmd_plan.Regions.Leases.{holder_of}
use helloplanbuddy_cmd_plan.Regions.Registry.{
  RegionRole, primary, secondary, draining, Row, Registry, on_region, has_region, upsert, register,
  registered_role, take_over, acquired_rows, own_role, report, lead, start_registered,
  stop_registered,
}

-- A row that says primary is the one of the holder, if there is one.
abbrev IsHolders : Option ℕ → Row → Type 0
IsHolders holder r = r.role ≡ primary → holder ≡ some r.region

abbrev OnlyHolderLeads : Registry → Type 0
OnlyHolderLeads w = All (IsHolders (holder_of w.lock)) w.rows

on_region-All :
    (P Q : Row → Type 0) (id : ℕ) (change : Row → Row) (rs : List Row)
    → ((r : Row) → r.region ≡ id → P r → Q (change r))
    → ((r : Row) → r.region ≢ id → P r → Q r)
    → All P rs
    → All Q (on_region id change rs)
unfolding on_region
on_region-All P Q id change [] f g h = tt
on_region-All P Q id change (r ∷ rs) f g h = elim (Bool-cases (r.region == id)) [
  | inl e ↦ rw e (f r (ground arith) h.0, on_region-All P Q id change rs f g h.1)
  | inr e ↦ rw e (g r (ground arith) h.0, on_region-All P Q id change rs f g h.1)
]

upsert-All :
    (P : Row → Type 0) (new : Row) (change : Row → Row) (rs : List Row)
    → P new
    → ((r : Row) → r.region ≡ new.region → P r → P (change r))
    → All P rs
    → All P (upsert new change rs)
upsert-All P new change rs n f h = elim (Bool-cases (has_region new.region rs)) [
  | inl e ↦ rw e (on_region-All P P new.region change rs f (λ r k p. p) h)
  | inr e ↦ rw e (n, h)
]

was_primary : (role : RegionRole) → registered_role role ≡ primary → role ≡ primary
was_primary primary h = refl
was_primary secondary h = h
was_primary draining h = cc

register_kept :
    (holder : Option ℕ) (region now : ℕ) (rs : List Row)
    → All (IsHolders holder) rs
    → All (IsHolders holder) (register region now rs)
unfolding register
register_kept holder region now rs h =
    upsert-All (IsHolders holder) _ _ rs (λ e. cc) (λ r k p e. p (was_primary r.role e)) h

-- After the former holder's row is set back, no row says primary.
set_back :
    (id : ℕ) (rs : List Row)
    → All (IsHolders (some id)) rs
    → All (λ r. r.role ≢ primary) (on_region id (λ r. record r { role = secondary }) rs)
set_back id rs h =
    on_region-All (IsHolders (some id)) (λ r. r.role ≢ primary) id _ rs (λ r k p e. cc)
      (λ r k p e. k (let same = p e in cc)) h

take_over_kept :
    (region now : ℕ) (l : Lock) (rs : List Row)
    → All (IsHolders (some l.region)) rs
    → All (IsHolders (some region)) (take_over region now l rs)
take_over_kept region now l rs h =
    upsert-All (IsHolders (some region)) _ _ _ (λ e. refl) (λ r k p e. ap some (sym k))
      (All-map (λ r p e. absurd (p e)) _ (set_back l.region rs h))

acquired_kept :
    (region lease now : ℕ) (l : Option Lock) (rs : List Row)
    → All (IsHolders (holder_of l)) rs
    → All
        (IsHolders (holder_of (acquire_region_leader region lease now l).0))
        (acquired_rows region now l rs)
unfolding acquire_region_leader
acquired_kept region lease now none rs h = All-map (λ r p e. let k = p e in cc) rs h
acquired_kept region lease now (some l) rs h =
    elim (Bool-cases (l.region == region && ltb now l.expires_at)) [
      | inl e ↦ rw e h
      | inr e ↦ elim (Bool-cases (leb l.expires_at now)) [
        | inl dead ↦ rw (e, dead) (take_over_kept region now l rs h)
        | inr alive ↦ rw (e, alive) h
      ]
    ]

winner_holds :
    (region lease now : ℕ) (l : Option Lock)
    → (acquire_region_leader region lease now l).1 ≡ true
    → holder_of (acquire_region_leader region lease now l).0 ≡ some region
unfolding acquire_region_leader
winner_holds region lease now none won = refl
winner_holds region lease now (some l) won =
    elim (Bool-cases (l.region == region && ltb now l.expires_at)) [
      | inl e ↦ rw e (ap some (ground arith))
      | inr e ↦ elim (Bool-cases (leb l.expires_at now)) [
        | inl dead ↦ rw (e, dead) refl
        | inr alive ↦ absurd (ground arith)
      ]
    ]

is_true : (b : Bool) → own_role b ≡ primary → b ≡ true
is_true true h = refl
is_true false h = cc

report_kept :
    (now : ℕ) (holder : Option ℕ) (m : Manager) (rs : List Row)
    → (m.is_primary ≡ true → holder ≡ some m.region)
    → All (IsHolders holder) rs
    → All (IsHolders holder) (report now m rs)
report_kept now holder m rs won h =
    on_region-All (IsHolders holder) (IsHolders holder) m.region _ rs
      (λ r k p e. won (is_true m.is_primary e) ∙ ap some (sym k)) (λ r k p. p) h

-- The call and its report, where the report may fail.
reported :
    (report_fails : Bool) (lease now : ℕ) (w : Registry) (m : Manager)
    → OnlyHolderLeads w
    → OnlyHolderLeads (lead smooth report_fails lease now w m).0
unfolding lead try_acquire_leadership
reported true lease now w m h = acquired_kept m.region lease now w.lock w.rows h
reported false lease now w m h =
    report_kept now _ (try_acquire_leadership smooth lease now w.lock m).1 _
      (winner_holds m.region lease now w.lock) (acquired_kept m.region lease now w.lock w.rows h)

lead_kept :
    (f : Fault) (report_fails : Bool) (lease now : ℕ) (w : Registry) (m : Manager)
    → OnlyHolderLeads w
    → OnlyHolderLeads (lead f report_fails lease now w m).0
unfolding lead try_acquire_leadership
lead_kept smooth report_fails lease now w m h = reported report_fails lease now w m h
lead_kept read_fails report_fails lease now w m h = acquired_kept m.region lease now w.lock w.rows h
lead_kept acquire_fails report_fails lease now w m h = h

-- What a manager does, each with its failures and its time.
pub data Action : Type 0 where
  start : Bool → Fault → Bool → ℕ → Action
  beat : Fault → Bool → ℕ → Action
  stop : Bool → ℕ → Action

abbrev pub act : ℕ → Action → Manager → Registry → Registry × Manager
act lease (start register_fails f report_fails now) m w =
    start_registered register_fails f report_fails lease now w m
act lease (beat f report_fails now) m w =
    if m.running then lead f report_fails lease now w m else (w, m)
act lease (stop fails now) m w = stop_registered fails now w m

start_kept :
    (register_fails : Bool) (f : Fault) (report_fails : Bool) (lease now : ℕ) (w : Registry)
    (m : Manager)
    → OnlyHolderLeads w
    → OnlyHolderLeads (start_registered register_fails f report_fails lease now w m).0
unfolding start_registered
start_kept register_fails f report_fails lease now w m h = elim (Bool-cases m.running) [
  | inl running ↦ rw running h
  | inr idle ↦ elim (Bool-cases register_fails) [
    | inl fails ↦ rw (idle, fails) h
    | inr works ↦
        rw (idle, works)
          (lead_kept f report_fails lease now (record w { rows = register m.region now w.rows })
            (record m { running = true }) (register_kept (holder_of w.lock) m.region now w.rows h))
  ]
]

stop_kept :
    (fails : Bool) (now : ℕ) (w : Registry) (m : Manager)
    → OnlyHolderLeads w
    → OnlyHolderLeads (stop_registered fails now w m).0
unfolding stop_registered
stop_kept true now w m h = h
stop_kept false now w m h =
    on_region-All (IsHolders (holder_of w.lock)) (IsHolders (holder_of w.lock)) m.region _ w.rows
      (λ r k p e. cc) (λ r k p. p) h

act_kept :
    (lease : ℕ) (a : Action) (m : Manager) (w : Registry)
    → OnlyHolderLeads w
    → OnlyHolderLeads (act lease a m w).0
act_kept lease (start register_fails f report_fails now) m w h =
    start_kept register_fails f report_fails lease now w m h
act_kept lease (beat f report_fails now) m w h = elim (Bool-cases m.running) [
  | inl running ↦ rw running (lead_kept f report_fails lease now w (record m { running = true }) h)
  | inr idle ↦ rw idle h
]
act_kept lease (stop fails now) m w h = stop_kept fails now w m h

-- Managers in any state act one after the other.
unfoldable pub act_all : ℕ → List (Action × Manager) → Registry → Registry
act_all lease [] w = w
act_all lease ((a, m) ∷ acts) w = act_all lease acts (act lease a m w).0

all_kept :
    (lease : ℕ) (acts : List (Action × Manager)) (w : Registry)
    → OnlyHolderLeads w
    → OnlyHolderLeads (act_all lease acts w)
unfolding act_all
all_kept lease [] w h = h
all_kept lease ((a, m) ∷ acts) w h =
    all_kept lease acts (act lease a m w).0 (act_kept lease a m w h)

-- In a registry that begins empty, whatever managers in whatever states start, beat and stop one after
-- the other, each to its end, and whatever of it fails, no row says primary but the one of the region
-- that holds the lock.
pub registry_truthful :
    (lease : ℕ) (acts : List (Action × Manager))
    → OnlyHolderLeads (act_all lease acts (record { lock = none; rows = [] }))
registry_truthful lease acts = all_kept lease acts (record { lock = none; rows = [] }) tt
