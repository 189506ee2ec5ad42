-- ===== src/Tests/Requests.antt =====
-- Runs of planbuddy_v9/controllers/bookingController.js.
use mathlib.Core.List.{Perm}
use mathlib.Core.List.Perm
use helloplanbuddy_cmd_plan.Base.{ℕ, suc, true, false, Option, none, some, List, [], ◌∷◌}
use helloplanbuddy_cmd_plan.Auth.Accounts.{Role}
use helloplanbuddy_cmd_plan.Booking.Rows.{confirmed, paid, Booking, Trip, Tables}
use helloplanbuddy_cmd_plan.Booking.Rows.{BookingStatus}
use helloplanbuddy_cmd_plan.Booking.Availability.{Offer, Place, Query, Row}
use helloplanbuddy_cmd_plan.Booking.Cancel.{CancelFaults}
use helloplanbuddy_cmd_plan.Booking.Requests.{CancelRequest}

abbrev booked : Booking
booked = record {
  id = 2;
  status = confirmed;
  payment_status = paid;
  trip_id = 9;
  user_id = 5;
  group_size = 4;
  cancelled_at = none;
  cancellation_reason = none;
  cancelled_by = none;
  updated_at = 0;
}

abbrev trip : Trip
trip = record { id = 9; current_bookings = 7; updated_at = 0 }

abbrev tables : Tables
tables = record { bookings = booked ∷ []; trips = trip ∷ [] }

abbrev smooth : CancelFaults
smooth = record { lock_fails = false; tx_fails = false; read_fails = false }

-- The refunds that the service was asked for; it fails.
abbrev refuse : ℕ → ℕ → ℕ → Tables × ℕ → (Tables × ℕ) × Option ℕ
refuse id reason by w = ((w.0, suc w.1), some 502)

abbrev ask : CancelRequest
ask = record {
  requester = record { id = 5; role = Role.user };
  booking_id = 2;
  reason = 6;
  now = 100;
}

abbrev ask_again : CancelRequest
ask_again = record ask { now = 200 }

abbrev rows : List ℕ
rows = 1 ∷ 2 ∷ 3 ∷ 4 ∷ 5 ∷ []

abbrev offer : Offer
offer = record { id = 9; max_group_size = 10; current_bookings = 7; is_active = true }

abbrev places : List Place
places =
    record { trip_id = 9; travel_date = 101; status = confirmed; group_size = 4 }
    ∷ record { trip_id = 9; travel_date = 101; status = BookingStatus.pending; group_size = 8 }
    ∷ []

abbrev span : Query
span = record { trip_id = some 9; start_date = some 100; end_date = some 102 }

abbrev as_given : List Row → List Row
as_given rows = rows
