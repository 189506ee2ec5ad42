-- ===== src/Booking/Cancel.antt =====
-- Dbservice fixed cancelbooking.js: `cancelBooking`, one transaction under row locks, so that
-- concurrent calls run one after the other.
use helloplanbuddy_cmd_plan.Base.{
  ℕ, ◌-◌, Bool, true, false, Option, none, some, List, ◌==◌, if◌then◌else◌,
}
use helloplanbuddy_cmd_plan.Engine.Table.{update_where}
use helloplanbuddy_cmd_plan.Booking.Rows.{
  BookingStatus, pending, confirmed, cancellation_pending, cancelled, failed, expired, completed,
  Booking, Trip, Tables, find_booking, find_trip,
}

pub data CancelError : Type 0 where
  booking_not_found : CancelError
  booking_terminal_state : BookingStatus → CancelError
  trip_not_found : CancelError
  query_failed : CancelError

-- The row that is returned is missing if its trip is.
pub data CancelResult : Type 0 where
  returned : Option Booking → CancelResult
  threw : CancelError → CancelResult

-- `lock_fails` is a failure up to the first SELECT, `tx_fails` one from there to COMMIT, and `read_fails`
-- one of the last SELECT, outside the transaction.
pub record CancelFaults : Type 0 where
  pub lock_fails : Bool
  pub tx_fails : Bool
  pub read_fails : Bool

-- `terminalStatuses.includes(status)`
abbrev pub is_terminal : BookingStatus → Bool
is_terminal cancelled = true
is_terminal failed = true
is_terminal expired = true
is_terminal pending = false
is_terminal confirmed = false
is_terminal cancellation_pending = false
is_terminal completed = false

abbrev pub is_cancelled : BookingStatus → Bool
is_cancelled cancelled = true
is_cancelled failed = false
is_cancelled expired = false
is_cancelled pending = false
is_cancelled confirmed = false
is_cancelled cancellation_pending = false
is_cancelled completed = false

-- `FROM bookings b JOIN trips t ON t.id = b.trip_id WHERE b.id = $1`
abbrev pub join_trip : Option Trip → Booking → Option Booking
join_trip none b = none
join_trip (some t) b = some b

abbrev pub joined_row : List Trip → Option Booking → Option Booking
joined_row trips none = none
joined_row trips (some b) = join_trip (find_trip b.trip_id trips) b

unfoldable pub read_joined : ℕ → Tables → Option Booking
read_joined id s = joined_row s.trips (find_booking id s.bookings)

abbrev pub read_back : CancelFaults → ℕ → Tables → CancelResult
read_back f id s = if f.read_fails then threw query_failed else returned (read_joined id s)

abbrev pub cancel_row : ℕ → ℕ → ℕ → Booking → Booking
cancel_row reason by now b = record b {
  status = cancelled;
  cancelled_at = some now;
  cancellation_reason = some reason;
  cancelled_by = some by;
  updated_at = now;
}

-- `GREATEST(current_bookings - $1, 0)`
abbrev pub release_row : ℕ → ℕ → Trip → Trip
release_row group_size now t = record t {
  current_bookings = t.current_bookings - group_size;
  updated_at = now;
}

unfoldable pub cancel_tables : Booking → ℕ → ℕ → ℕ → Tables → Tables
cancel_tables b reason by now s = record {
  bookings = update_where (λ k. k.id == b.id) (cancel_row reason by now) s.bookings;
  trips = update_where (λ t. t.id == b.trip_id) (release_row b.group_size now) s.trips;
}

abbrev pub write_cancel :
    CancelFaults → Booking → ℕ → ℕ → ℕ → Tables → Option Trip → Tables × CancelResult
write_cancel f b reason by now s none =
    (s, threw (if f.tx_fails then query_failed else trip_not_found))
write_cancel f b reason by now s (some t) =
    if f.tx_fails
    then (s, threw query_failed)
    else (cancel_tables b reason by now s, read_back f b.id (cancel_tables b reason by now s))

abbrev pub cancel_found : CancelFaults → ℕ → ℕ → ℕ → Tables → Option Booking → Tables × CancelResult
cancel_found f reason by now s none = (s, threw booking_not_found)
cancel_found f reason by now s (some b) =
    if is_terminal b.status
    then (
      s,
      if is_cancelled b.status then read_back f b.id s else threw (booking_terminal_state b.status),
    )
    else write_cancel f b reason by now s (find_trip b.trip_id s.trips)

unfoldable pub cancel_booking : CancelFaults → ℕ → ℕ → ℕ → ℕ → Tables → Tables × CancelResult
cancel_booking f id reason by now s =
    if f.lock_fails
    then (s, threw query_failed)
    else cancel_found f reason by now s (find_booking id s.bookings)
