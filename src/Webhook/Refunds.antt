-- ===== src/Webhook/Refunds.antt =====
-- razorpayWebhookController.js: `applyRefundEvent`, in a transaction that holds the payment's row. The
-- status 'success' is one that no statement of the repository writes, so it is left out.
use helloplanbuddy_cmd_plan.Base.{
  ℕ, Bool, true, false, not, ◌&&◌, Option, none, some, List, [], ◌∷◌, ◌==◌, if◌then◌else◌,
}
use helloplanbuddy_cmd_plan.Engine.Table.{update_where}
use helloplanbuddy_cmd_plan.Booking.Rows.{Booking, PaidStatus}
use helloplanbuddy_cmd_plan.Webhook.Payments.{
  PaymentStatus, created, captured, failed, refunded, refund_failed, Payment, Ledger, EventType,
  is_payment, booking_of, apply_payment_event,
}

pub data RefundType : Type 0 where
  refund_processed refund_paid other_refund : RefundType

abbrev pub is_captured : PaymentStatus → Bool
is_captured created = false
is_captured captured = true
is_captured failed = false
is_captured refunded = false
is_captured refund_failed = false

abbrev pub refund_row : ℕ → ℕ → Payment → Payment
refund_row refund now p = record p {
  status = refunded;
  refund_id = some refund;
  refunded_at = some now;
  updated_at = now;
}

unfoldable pub refund_payment : ℕ → ℕ → ℕ → List Payment → List Payment
refund_payment id refund now t =
    update_where (λ p. is_payment id p && is_captured p.status) (refund_row refund now) t

abbrev pub refunded_booking : ℕ → Booking → Booking
refunded_booking now b = record b { payment_status = PaidStatus.refunded; updated_at = now }

unfoldable pub refund_booking : ℕ → ℕ → List Booking → List Booking
refund_booking booking now t = update_where (λ b. b.id == booking) (refunded_booking now) t

-- The two updates of a payment that was found. The second one binds a parameter that its text does
-- not use; `accepts` says whether the database takes it. If it does not, the call throws (none), and its
-- transaction is rolled back.
abbrev pub apply_refund : Bool → ℕ → ℕ → ℕ → Ledger → Option ℕ → Option Ledger
apply_refund accepts id refund now l none = some l
apply_refund accepts id refund now l (some booking) =
    if accepts
    then some (record {
      payments = refund_payment id refund now l.payments;
      bookings = refund_booking booking now l.bookings;
    })
    else none

abbrev pub is_done : RefundType → Bool
is_done refund_processed = true
is_done refund_paid = true
is_done other_refund = false

-- Without a payment id the two statements find no row.
abbrev pub without_payment : Bool → RefundType → Ledger → Option Ledger
without_payment accepts e l = if is_done e && not accepts then none else some l

abbrev pub with_ids : Bool → RefundType → Option ℕ → Option ℕ → ℕ → Ledger → Option Ledger
with_ids accepts e none id now l = some l
with_ids accepts e (some refund) none now l = without_payment accepts e l
with_ids accepts e (some refund) (some id) now l =
    if is_done e then apply_refund accepts id refund now l (booking_of id l.payments) else some l

-- `applyRefundEvent`, with its refund id and its payment id.
unfoldable pub apply_refund_event :
    Bool → RefundType → Option ℕ → Option ℕ → ℕ → Ledger → Option Ledger
apply_refund_event accepts e refund id now l = with_ids accepts e refund id now l

abbrev pub or_rolled_back : Ledger → Option Ledger → Ledger
or_rolled_back l none = l
or_rolled_back l (some m) = m

-- The events of webhooks, of both kinds.
pub data Event : Type 0 where
  payment_event : EventType → Option ℕ → Event
  refund_event : Bool → RefundType → Option ℕ → Option ℕ → Event

unfoldable pub apply_event : Event → ℕ → Ledger → Ledger
apply_event (payment_event e id) now l = apply_payment_event e id now l
apply_event (refund_event accepts e refund id) now l =
    or_rolled_back l (apply_refund_event accepts e refund id now l)

unfoldable pub apply_events : List (Event × ℕ) → Ledger → Ledger
apply_events [] l = l
apply_events ((e, now) ∷ es) l = apply_events es (apply_event e now l)
