-- ===== src/Tests/Booking.antt =====
-- Runs of planbuddy_v9/controllers/Dbservice fixed cancelbooking.js.
use helloplanbuddy_cmd_plan.Base.{◌-◌, ◌≡◌, refl, false, none, some, [], ◌∷◌, arith}
use helloplanbuddy_cmd_plan.Booking.Rows.{
  cancelled, pending, confirmed, paid, unpaid, Booking, Trip, Tables, find_booking, find_trip,
}
use helloplanbuddy_cmd_plan.Booking.Cancel.{CancelFaults, cancel_booking}
use helloplanbuddy_cmd_plan.Booking.Seats.{seats, KeyedById, Consistent, cancel-Consistent}
use helloplanbuddy_cmd_plan.Booking.Once.{cancelled_once}

abbrev first : Booking
first = record {
  id = 1;
  status = pending;
  payment_status = unpaid;
  trip_id = 9;
  user_id = 5;
  group_size = 3;
  cancelled_at = none;
  cancellation_reason = none;
  cancelled_by = none;
  updated_at = 0;
}

abbrev second : Booking
second = record first { id = 2; group_size = 4; status = confirmed; payment_status = paid }

abbrev trip : Trip
trip = record { id = 9; current_bookings = 7; updated_at = 0 }

abbrev tables : Tables
tables = record { bookings = first ∷ second ∷ []; trips = trip ∷ [] }

abbrev smooth : CancelFaults
smooth = record { lock_fails = false; tx_fails = false; read_fails = false }

cancel-Consistent_example : Consistent (cancel_booking smooth 1 6 5 100 tables).0
unfolding KeyedById seats
cancel-Consistent_example =
    cancel-Consistent smooth 1 6 5 100 tables (((ground arith, tt), (tt, tt)), (refl, tt))

cancelled_once_example :
    let v = (cancel_booking smooth 1 6 5 100 tables).0 in
    (find_booking 1 v.bookings
      ≡ some (record first {
        status = cancelled;
        cancelled_at = some 100;
        cancellation_reason = some 6;
        cancelled_by = some 5;
        updated_at = 100;
      }))
    × (find_trip 9 v.trips
        ≡ some (record trip { current_bookings = trip.current_bookings - 3; updated_at = 100 }))
    × ((cancel_booking smooth 1 7 8 200 v).0 ≡ v)
unfolding find_booking find_trip
cancelled_once_example =
    cancelled_once smooth smooth 1 6 5 100 7 8 200 first trip tables refl refl refl refl refl
