-- ===== src/Booking/Rows.antt =====
-- The tables bookings and trips, as far as the modelled statements read and write them. Ids, times
-- and texts are numbers that are only compared.
use helloplanbuddy_cmd_plan.Base.{
  ℕ, Bool, true, false, Option, none, some, List, [], ◌∷◌, ◌==◌, if◌then◌else◌,
}

pub data BookingStatus : Type 0 where
  pending confirmed cancellation_pending cancelled failed expired completed : BookingStatus

pub data PaidStatus : Type 0 where
  unpaid paid refunded : PaidStatus

pub record Booking : Type 0 where
  pub id : ℕ
  pub status : BookingStatus
  pub payment_status : PaidStatus
  pub trip_id : ℕ
  pub user_id : ℕ
  pub group_size : ℕ
  pub cancelled_at : Option ℕ
  pub cancellation_reason : Option ℕ
  pub cancelled_by : Option ℕ
  pub updated_at : ℕ

pub record Trip : Type 0 where
  pub id : ℕ
  pub current_bookings : ℕ
  pub updated_at : ℕ

pub record Tables : Type 0 where
  pub bookings : List Booking
  pub trips : List Trip

-- `SELECT … WHERE id = $1`, the first row.
unfoldable pub find_booking : ℕ → List Booking → Option Booking
find_booking id [] = none
find_booking id (b ∷ rest) = if b.id == id then some b else find_booking id rest

unfoldable pub find_trip : ℕ → List Trip → Option Trip
find_trip id [] = none
find_trip id (t ∷ rest) = if t.id == id then some t else find_trip id rest

abbrev pub is_waiting : BookingStatus → Bool
is_waiting pending = true
is_waiting confirmed = false
is_waiting cancellation_pending = false
is_waiting cancelled = false
is_waiting failed = false
is_waiting expired = false
is_waiting completed = false
