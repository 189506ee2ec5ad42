-- ===== src/Regions/Registry.antt =====
-- The rows of region_registry: `_register` and `stop` of region-manager.js, and what a heartbeat and the
-- function acquire_region_leader of schema-v3.sql write there.
use helloplanbuddy_cmd_plan.Base.{
  ℕ, ◌+◌, ◌≡◌, refl, Bool, true, false, ◌&&◌, Option, none, some, List, [], ◌∷◌, ltb, leb, ◌==◌,
  if◌then◌else◌,
}
use helloplanbuddy_cmd_plan.Regions.{
  Lock, Manager, Fault, smooth, acquire_fails, read_fails, try_acquire_leadership,
}

pub data RegionRole : Type 0 where
  primary secondary draining : RegionRole

pub record Row : Type 0 where
  pub region : ℕ
  pub role : RegionRole
  pub epoch : ℕ
  pub last_heartbeat : ℕ

pub record Registry : Type 0 where
  pub lock : Option Lock
  pub rows : List Row

unfoldable pub on_region : ℕ → (Row → Row) → List Row → List Row
on_region id change [] = []
on_region id change (r ∷ rs) =
    let rest = on_region id change rs in if r.region == id then change r ∷ rest else r ∷ rest

unfoldable pub has_region : ℕ → List Row → Bool
has_region id [] = false
has_region id (r ∷ rs) = if r.region == id then true else has_region id rs

-- `INSERT … ON CONFLICT (region_id) DO UPDATE`
abbrev pub upsert : Row → (Row → Row) → List Row → List Row
upsert new change rs = if has_region new.region rs then on_region new.region change rs else new ∷ rs

abbrev pub registered_role : RegionRole → RegionRole
registered_role primary = primary
registered_role secondary = secondary
registered_role draining = secondary

-- `_register`
unfoldable pub register : ℕ → ℕ → List Row → List Row
register region now rs =
    upsert (record { region = region; role = secondary; epoch = 1; last_heartbeat = now })
      (λ r. record r { role = registered_role r.role; last_heartbeat = now }) rs

-- The row of a region that takes the lock over, after the former holder's.
abbrev pub take_over : ℕ → ℕ → Lock → List Row → List Row
take_over region now l rs =
    upsert (record { region = region; role = primary; epoch = l.epoch + 1; last_heartbeat = now })
      (λ r. record r { role = primary; epoch = l.epoch + 1; last_heartbeat = now })
      (on_region l.region (λ r. record r { role = secondary }) rs)

-- What acquire_region_leader writes.
abbrev pub acquired_rows : ℕ → ℕ → Option Lock → List Row → List Row
acquired_rows region now none rs = rs
acquired_rows region now (some l) rs =
    if l.region == region && ltb now l.expires_at
    then rs
    else (if leb l.expires_at now then take_over region now l rs else rs)

abbrev pub own_role : Bool → RegionRole
own_role is_primary = if is_primary then primary else secondary

-- The update at the end of `_tryAcquireLeadership`.
abbrev pub report : ℕ → Manager → List Row → List Row
report now m rs =
    on_region m.region
      (λ r. record r { role = own_role m.is_primary; epoch = m.epoch; last_heartbeat = now }) rs

-- `_tryAcquireLeadership` with the registry; the update may fail after the rest.
unfoldable pub lead : Fault → Bool → ℕ → ℕ → Registry → Manager → Registry × Manager
lead smooth report_fails lease now w m =
    let t = try_acquire_leadership smooth lease now w.lock m in
    let rs = acquired_rows m.region now w.lock w.rows in
    (record { lock = t.0; rows = if report_fails then rs else report now t.1 rs }, t.1)
lead read_fails report_fails lease now w m =
    let t = try_acquire_leadership read_fails lease now w.lock m in
    (record { lock = t.0; rows = acquired_rows m.region now w.lock w.rows }, t.1)
lead acquire_fails report_fails lease now w m = (w, m)

-- `start`: a registration that fails throws after `_running` was set.
unfoldable pub start_registered :
    Bool → Fault → Bool → ℕ → ℕ → Registry → Manager → Registry × Manager
start_registered register_fails f report_fails lease now w m =
    if m.running
    then (w, m)
    else (if register_fails
        then (w, record m { running = true })
        else lead f report_fails lease now (record w { rows = register m.region now w.rows })
            (record m { running = true }))

-- `stop`, where a failure of the update is ignored.
unfoldable pub stop_registered : Bool → ℕ → Registry → Manager → Registry × Manager
stop_registered fails now w m = (
  record w {
    rows =
        if fails
        then w.rows
        else on_region m.region (λ r. record r { role = draining; last_heartbeat = now }) w.rows;
  },
  record m { running = false },
)

-- A registration that fails leaves the manager running: a second `start` does nothing, so that the
-- region never takes part in the election.
failed_start_sticks :
    (f g : Fault) (report_fails again_fails again : Bool) (lease now later : ℕ) (w : Registry)
    (m : Manager)
    → m.running ≡ false
    → let (v, n) = start_registered true f report_fails lease now w m in
      start_registered again g again_fails lease later v n ≡ (w, record m { running = true })
unfolding start_registered
failed_start_sticks f g report_fails again_fails again lease now later w m idle = rw idle refl
