-- ===== src/Booking/Availability.antt =====
-- bookingController.js: checkAvailability and getAvailableSlots, with their queries. Dates are numbers
-- of days.
use helloplanbuddy_cmd_plan.Base.{
  ℕ, zero, suc, ◌+◌, ◌-◌, Bool, true, false, ◌&&◌, Option, none, some, List, [], ◌∷◌, map, leb,
  ◌==◌, if◌then◌else◌,
}
use helloplanbuddy_cmd_plan.Booking.Rows.{
  BookingStatus, pending, confirmed, cancellation_pending, cancelled, failed, expired, completed,
}

-- `negsuc n` is -(n + 1).
pub data ℤ : Type 0 where
  pos : ℕ → ℤ
  negsuc : ℕ → ℤ

-- a - b, as an integer.
abbrev pub difference : ℕ → ℕ → ℤ
difference a b = if leb b a then pos (a - b) else negsuc (b - a - 1)

-- The columns of bookings and trips that the queries read.
pub record Place : Type 0 where
  pub trip_id : ℕ
  pub travel_date : ℕ
  pub status : BookingStatus
  pub group_size : ℕ

pub record Offer : Type 0 where
  pub id : ℕ
  pub max_group_size : ℕ
  pub current_bookings : ℕ
  pub is_active : Bool

-- `status NOT IN ('cancelled', 'failed', 'expired')`
abbrev pub counts : BookingStatus → Bool
counts pending = true
counts confirmed = true
counts cancellation_pending = true
counts cancelled = false
counts failed = false
counts expired = false
counts completed = true

-- The days of `generate_series`, from a first one.
unfoldable pub days_from : ℕ → ℕ → List ℕ
days_from zero first = []
days_from (suc n) first = first ∷ days_from n (first + 1)

abbrev pub days : ℕ → ℕ → List ℕ
days first last = days_from (last + 1 - first) first

unfoldable pub find_offer : ℕ → List Offer → Option Offer
find_offer id [] = none
find_offer id (o ∷ os) = if o.id == id then some o else find_offer id os

-- `WHERE trip_id = $1 AND status NOT IN (…) AND travel_date BETWEEN $2 AND $3`
abbrev pub in_range : ℕ → ℕ → ℕ → Place → Bool
in_range trip first last p =
    p.trip_id == trip && (counts p.status && (leb first p.travel_date && leb p.travel_date last))

-- `GROUP BY travel_date` with `SUM(group_size)`.
unfoldable pub add_to_group : ℕ → ℕ → List (ℕ × ℕ) → List (ℕ × ℕ)
add_to_group date size [] = (date, size) ∷ []
add_to_group date size ((d, n) ∷ gs) =
    if d == date then (d, size + n) ∷ gs else (d, n) ∷ add_to_group date size gs

unfoldable pub booked_by_date : ℕ → ℕ → ℕ → List Place → List (ℕ × ℕ)
booked_by_date trip first last [] = []
booked_by_date trip first last (p ∷ ps) =
    let rest = booked_by_date trip first last ps in
    if in_range trip first last p then add_to_group p.travel_date p.group_size rest else rest

unfoldable pub find_group : ℕ → List (ℕ × ℕ) → Option ℕ
find_group date [] = none
find_group date ((d, n) ∷ gs) = if d == date then some n else find_group date gs

abbrev pub coalesce : Option ℕ → ℕ
coalesce none = 0
coalesce (some n) = n

-- `d.travel_date`, which is null where the join finds no group.
abbrev pub joined_date : ℕ → Option ℕ → Option ℕ
joined_date date none = none
joined_date date (some n) = some date

-- A row of the query of checkAvailability. Sums are bigints, which come as texts: here they are their
-- values.
pub record Row : Type 0 where
  pub available_slots : ℤ
  pub travel_date : Option ℕ
  pub booked_on_date : ℕ
  pub available_on_date : ℤ

abbrev pub row_of : Offer → List (ℕ × ℕ) → ℕ → Row
row_of o groups date =
    let booked = find_group date groups in
    record {
      available_slots = difference o.max_group_size o.current_bookings;
      travel_date = joined_date date booked;
      booked_on_date = coalesce booked;
      available_on_date = difference o.max_group_size (coalesce booked);
    }

-- The query has no ORDER BY: `order` is the order in which the database gives its rows.
abbrev pub rows_of : (List Row → List Row) → List Place → ℕ → ℕ → ℕ → Option Offer → List Row
rows_of order places trip first last none = []
rows_of order places trip first last (some o) =
    order (map (row_of o (booked_by_date trip first last places)) (days first last))

-- The query string; the bounds and the id are null if they are missing.
pub record Query : Type 0 where
  pub trip_id : Option ℕ
  pub start_date : Option ℕ
  pub end_date : Option ℕ

-- What both handlers answer, unless the query fails.
pub data Answer {ℓ} (A : Type ℓ) : Type ℓ where
  trip_not_found : Answer A
  answered : A → Answer A

abbrev pub found_or_404 : List Row → Answer (List Row)
found_or_404 [] = trip_not_found
found_or_404 (r ∷ rs) = answered (r ∷ rs)

abbrev pub select_availability :
    (List Row → List Row) → List Offer → List Place → Option ℕ → Option ℕ → Option ℕ → List Row
select_availability order offers places none first last = []
select_availability order offers places (some trip) none last = []
select_availability order offers places (some trip) (some first) none = []
select_availability order offers places (some trip) (some first) (some last) =
    rows_of order places trip first last (find_offer trip offers)

-- `checkAvailability`, with the id in the path, which it does not read.
unfoldable pub check_availability :
    (List Row → List Row) → List Offer → List Place → ℕ → Query → Answer (List Row)
check_availability order offers places path_id q =
    found_or_404 (select_availability order offers places q.trip_id q.start_date q.end_date)

-- `COALESCE(SUM(b.group_size), 0)` of the bookings that are joined to a date.
unfoldable pub booked_on : ℕ → ℕ → List Place → ℕ
booked_on trip date [] = 0
booked_on trip date (p ∷ ps) =
    (if p.trip_id == trip && (p.travel_date == date && counts p.status) then p.group_size else 0)
    + booked_on trip date ps

pub record Slot : Type 0 where
  pub date : ℕ
  pub available : ℤ
  pub booked : ℕ
  pub total : ℕ

abbrev pub slot_of : Offer → List Place → ℕ → ℕ → Slot
slot_of o places trip date = record {
  date = date;
  available = difference o.max_group_size (booked_on trip date places);
  booked = booked_on trip date places;
  total = o.max_group_size;
}

abbrev pub slots_of : List Place → ℕ → ℕ → ℕ → Option Offer → List Slot
slots_of places trip first last none = []
slots_of places trip first last (some o) =
    if o.is_active then map (slot_of o places trip) (days first last) else []

abbrev pub select_slots : List Offer → List Place → Option ℕ → Option ℕ → Option ℕ → List Slot
select_slots offers places none first last = []
select_slots offers places (some trip) none last = []
select_slots offers places (some trip) (some first) none = []
select_slots offers places (some trip) (some first) (some last) =
    slots_of places trip first last (find_offer trip offers)

-- `getAvailableSlots`
unfoldable pub get_available_slots : List Offer → List Place → ℕ → Query → Answer (List Slot)
get_available_slots offers places path_id q =
    answered (select_slots offers places q.trip_id q.start_date q.end_date)
