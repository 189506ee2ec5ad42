-- ===== src/Booking/Requests.antt =====
-- bookingController.js: `getBooking`, `cancelBooking` and the pages of `getUserBookings` and
-- `getAllBookings`. The refund service and the mails are not in this repository.
use helloplanbuddy_cmd_plan.Base.{
  ℕ, ◌+◌, ◌-◌, ◌*◌, ◌/◌, min, max, Bool, true, false, not, ◌&&◌, Option, none, some, List, [], ◌∷◌,
  ◌==◌, if◌then◌else◌, length, take, drop,
}
use helloplanbuddy_cmd_plan.Engine.Table.{select, update_where}
use helloplanbuddy_cmd_plan.Auth.Accounts.{Role, user, agency, admin}
use helloplanbuddy_cmd_plan.Booking.Rows.{
  BookingStatus, pending, confirmed, cancellation_pending, cancelled, failed, expired, completed,
  PaidStatus, unpaid, paid, refunded, Booking, Tables, find_booking,
}
use helloplanbuddy_cmd_plan.Booking.Cancel.{
  booking_not_found, booking_terminal_state, trip_not_found, query_failed, CancelResult, returned,
  threw, CancelFaults, read_joined, cancel_booking,
}

pub record Requester : Type 0 where
  pub id : ℕ
  pub role : Role

abbrev pub is_admin : Role → Bool
is_admin user = false
is_admin agency = false
is_admin admin = true

abbrev pub is_agency : Role → Bool
is_agency user = false
is_agency agency = true
is_agency admin = false

pub data Answer : Type 0 where
  not_found : Answer
  access_denied : Answer
  shown : Booking → Answer
  -- The booking after a cancellation; it is missing if its trip is.
  booking_cancelled : Option Booking → Answer
  in_progress : Option Booking → Answer
  refund_initiated : Option Booking → Answer
  -- The status of the refund's error, or 502.
  refund_failed : ℕ → Answer
  conflict : BookingStatus → Answer
  trip_missing : Answer
  passed_to_next : Answer

abbrev pub show_to : Requester → Option Booking → Answer
show_to q none = not_found
show_to q (some b) =
    if not (b.user_id == q.id) && (not (is_admin q.role) && not (is_agency q.role))
    then access_denied
    else shown b

-- `getBooking`
unfoldable pub get_booking : Requester → ℕ → Tables → Answer
get_booking q id s = show_to q (find_booking id s.bookings)

abbrev pub is_confirmed : BookingStatus → Bool
is_confirmed confirmed = true
is_confirmed pending = false
is_confirmed cancellation_pending = false
is_confirmed cancelled = false
is_confirmed failed = false
is_confirmed expired = false
is_confirmed completed = false

abbrev pub is_paid : PaidStatus → Bool
is_paid paid = true
is_paid unpaid = false
is_paid refunded = false

abbrev pub is_claimable : ℕ → Booking → Bool
is_claimable id b = b.id == id && (is_confirmed b.status && is_paid b.payment_status)

abbrev pub is_some : Option Booking → Bool
is_some none = false
is_some (some b) = true

abbrev pub first : List Booking → Option Booking
first [] = none
first (b ∷ t) = some b

-- `UPDATE … WHERE id = $1 AND status = 'confirmed' AND payment_status = 'paid' RETURNING id`
unfoldable pub claim : ℕ → ℕ → Tables → Tables × Bool
claim id now s = (
  record s {
    bookings =
        update_where (is_claimable id)
          (λ b. record b { status = cancellation_pending; updated_at = now }) s.bookings;
  },
  is_some (first (select (is_claimable id) s.bookings)),
)

-- The answer to what `DbService.cancelBooking` gives or throws. Its errors are structured, but for a
-- query that fails.
abbrev pub answer_of : CancelResult → Answer
answer_of (returned b) = booking_cancelled b
answer_of (threw booking_not_found) = not_found
answer_of (threw (booking_terminal_state status)) = conflict status
answer_of (threw trip_not_found) = trip_missing
answer_of (threw query_failed) = passed_to_next

-- A request to cancel: who asks, for which booking, why and when.
pub record CancelRequest : Type 0 where
  pub requester : Requester
  pub booking_id : ℕ
  pub reason : ℕ
  pub now : ℕ

-- `initiate_refund` of the refund service gives none or the status of its error.
module _ {ℓ} {R : Type ℓ} (initiate_refund : ℕ → ℕ → ℕ → Tables × R → (Tables × R) × Option ℕ) where
  abbrev pub refund_answer : ℕ → (Tables × R) × Option ℕ → (Tables × R) × Answer
  refund_answer id ((s, r), none) = ((s, r), refund_initiated (read_joined id s))
  refund_answer id ((s, r), some status) = ((s, r), refund_failed status)

  -- A confirmed and paid booking, where every query works and the mail is sent.
  unfoldable pub cancel_with_refund : CancelRequest → Tables × R → (Tables × R) × Answer
  cancel_with_refund q (s, r) =
      let c = claim q.booking_id q.now s in
      if c.1
      then refund_answer q.booking_id
          (initiate_refund q.booking_id q.reason q.requester.id (c.0, r))
      else ((c.0, r), in_progress (read_joined q.booking_id c.0))

  abbrev pub cancel_directly : CancelFaults → CancelRequest → Tables × R → (Tables × R) × Answer
  cancel_directly f q (s, r) =
      let c = cancel_booking f q.booking_id q.reason q.requester.id q.now s in
      ((c.0, r), answer_of c.1)

  abbrev pub cancel_read :
      CancelFaults → CancelRequest → Option Booking → Tables × R → (Tables × R) × Answer
  cancel_read f q none w = (w, not_found)
  cancel_read f q (some b) w =
      if not (b.user_id == q.requester.id) && not (is_admin q.requester.role)
      then (w, access_denied)
      else (if is_confirmed b.status && is_paid b.payment_status
          then cancel_with_refund q w
          else cancel_directly f q w)

  -- `cancelBooking` of the controller.
  unfoldable pub cancel_request : CancelFaults → CancelRequest → Tables × R → (Tables × R) × Answer
  cancel_request f q (s, r) = cancel_read f q (read_joined q.booking_id s) (s, r)

-- What `parseInt` gives of a parameter of the query.
pub data Parsed : Type 0 where
  nan : Parsed
  negative : ℕ → Parsed
  natural : ℕ → Parsed

pub record Page : Type 0 where
  pub page : ℕ
  pub limit : ℕ
  pub offset : ℕ

-- `Math.max(1, …)` and `Math.min(50, …)`; a page or a limit that is no number, or a negative limit,
-- makes the query fail.
abbrev pub page_number : Parsed → Option ℕ
page_number nan = none
page_number (negative n) = some 1
page_number (natural n) = some (max 1 n)

abbrev pub page_limit : Parsed → Option ℕ
page_limit nan = none
page_limit (negative n) = none
page_limit (natural n) = some (min 50 n)

abbrev pub paged : Option ℕ → Option ℕ → Option Page
paged none limit = none
paged (some page) none = none
paged (some page) (some limit) =
    some (record { page = page; limit = limit; offset = (page - 1) * limit })

unfoldable pub page_of : Parsed → Parsed → Option Page
page_of page limit = paged (page_number page) (page_limit limit)

-- `LIMIT … OFFSET …`
unfoldable pub slice {ℓ} : {A : Type ℓ} → Page → List A → List A
slice p rows = take p.limit (drop p.offset rows)

-- `Math.ceil(total / limit)`, which is no number for a limit of 0.
unfoldable pub page_count : ℕ → ℕ → Option ℕ
page_count total limit = if limit == 0 then none else some ((total + (limit - 1)) / limit)

abbrev pub same_status : BookingStatus → BookingStatus → Bool
same_status pending pending = true
same_status confirmed confirmed = true
same_status cancellation_pending cancellation_pending = true
same_status cancelled cancelled = true
same_status failed failed = true
same_status expired expired = true
same_status completed completed = true
same_status s t = false

abbrev pub has_status : Option BookingStatus → Booking → Bool
has_status none b = true
has_status (some status) b = same_status b.status status

-- `getUserBookings`, of a table in the order of its `ORDER BY`: the rows, and the number of all. The
-- columns of the joined trip and payment are left out: the join is taken to find one captured payment of
-- a booking at most, as it would repeat the row otherwise.
unfoldable pub get_user_bookings : ℕ → Option BookingStatus → Page → Tables → List Booking × ℕ
get_user_bookings owner status p s =
    let rows = select (λ b. b.user_id == owner && has_status status b) s.bookings in
    (slice p rows, length rows)

-- `getAllBookings`
unfoldable pub get_all_bookings : Option BookingStatus → Page → Tables → List Booking × ℕ
get_all_bookings status p s =
    let rows = select (has_status status) s.bookings in (slice p rows, length rows)
