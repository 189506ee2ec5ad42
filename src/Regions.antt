-- ===== src/Regions.antt =====
-- region-manager.js, and the function acquire_region_leader of schema-v3.sql: the election of a
-- leading region. Times are in milliseconds, and regions are numbers that are only compared.
use helloplanbuddy_cmd_plan.Base.{
  ℕ, ◌+◌, Bool, true, false, ◌&&◌, Option, none, some, ltb, leb, ◌==◌, if◌then◌else◌,
}
pub mod Leases
pub mod Registry
pub mod Reported

-- The row of region_leader_lock.
pub record Lock : Type 0 where
  pub region : ℕ
  pub epoch : ℕ
  pub expires_at : ℕ

abbrev pub Leadership : Type 0
Leadership = Option Lock × Bool

-- The end of a call that found no row: what is inserted gives way to a row that came in between, and the
-- answer is true all the same.
abbrev pub insert_first : ℕ → ℕ → ℕ → Option Lock → Leadership
insert_first region lease now none =
    (some (record { region = region; epoch = 1; expires_at = now + lease }), true)
insert_first region lease now (some l) = (some l, true)

abbrev pub renew_or_steal : ℕ → ℕ → ℕ → Lock → Leadership
renew_or_steal region lease now l =
    if l.region == region && ltb now l.expires_at
    then (some (record l { expires_at = now + lease }), true)
    else (if leb l.expires_at now
        then (
          some (record { region = region; epoch = l.epoch + 1; expires_at = now + lease }),
          true,
        )
        else (some l, false))

-- `acquire_region_leader`, as one step: a row that is found is locked to the end. Calls that find none
-- are not ordered by a lock, and a call may end by `insert_first` after another one's.
unfoldable pub acquire_region_leader : ℕ → ℕ → ℕ → Option Lock → Leadership
acquire_region_leader region lease now none = insert_first region lease now none
acquire_region_leader region lease now (some l) = renew_or_steal region lease now l

-- A process's manager.
pub record Manager : Type 0 where
  pub region : ℕ
  pub is_primary : Bool
  pub epoch : ℕ
  pub running : Bool

-- Which query of `_tryAcquireLeadership` throws, if one does: its catch keeps what was set before.
pub data Fault : Type 0 where
  smooth acquire_fails read_fails : Fault

abbrev pub epoch_or : ℕ → Option Lock → ℕ
epoch_or old none = old
epoch_or old (some l) = l.epoch

abbrev pub after_acquire : Fault → Manager → Leadership → Option Lock × Manager
after_acquire smooth m (l, acquired) =
    (l, record m { is_primary = acquired; epoch = epoch_or m.epoch l })
after_acquire read_fails m (l, acquired) = (l, record m { is_primary = acquired })
after_acquire acquire_fails m (l, acquired) = (l, m)

-- `_tryAcquireLeadership`, without the rows of the registry, which Registry adds.
unfoldable pub try_acquire_leadership :
    Fault → ℕ → ℕ → Option Lock → Manager → Option Lock × Manager
try_acquire_leadership smooth lease now l m =
    after_acquire smooth m (acquire_region_leader m.region lease now l)
try_acquire_leadership read_fails lease now l m =
    after_acquire read_fails m (acquire_region_leader m.region lease now l)
try_acquire_leadership acquire_fails lease now l m = (l, m)

-- `_tick`
unfoldable pub tick : Fault → ℕ → ℕ → Option Lock → Manager → Option Lock × Manager
tick f lease now l m = if m.running then try_acquire_leadership f lease now l m else (l, m)

-- `start`, once the region is registered; a second call does nothing.
unfoldable pub start : Fault → ℕ → ℕ → Option Lock → Manager → Option Lock × Manager
start f lease now l m =
    if m.running then (l, m) else try_acquire_leadership f lease now l (record m { running = true })

-- `stop`, which keeps the lease.
unfoldable pub stop : Manager → Manager
stop m = record m { running = false }
