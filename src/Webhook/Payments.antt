-- ===== src/Webhook/Payments.antt =====
-- razorpayWebhookController.js: `applyPaymentEvent`, in a transaction that holds the payment's row.
-- Payment ids are numbers that are only compared.
use helloplanbuddy_cmd_plan.Base.{
  ℕ, Bool, true, false, ◌&&◌, Option, none, some, List, [], ◌∷◌, ◌==◌, if◌then◌else◌,
}
use helloplanbuddy_cmd_plan.Engine.Table.{update_where}
use helloplanbuddy_cmd_plan.Booking.Rows.{Booking, paid, confirmed, is_waiting}

pub data PaymentStatus : Type 0 where
  created captured failed refunded refund_failed : PaymentStatus

pub record Payment : Type 0 where
  pub razorpay_payment_id : Option ℕ
  pub booking_id : ℕ
  pub status : PaymentStatus
  pub refund_id : Option ℕ
  pub refunded_at : Option ℕ
  pub updated_at : ℕ

pub record Ledger : Type 0 where
  pub payments : List Payment
  pub bookings : List Booking

pub data EventType : Type 0 where
  payment_captured payment_authorized payment_failed unhandled : EventType

abbrev pub is_created : PaymentStatus → Bool
is_created created = true
is_created captured = false
is_created failed = false
is_created refunded = false
is_created refund_failed = false

-- `razorpay_payment_id = $1`, false on NULL.
abbrev pub is_payment : ℕ → Payment → Bool
is_payment id p = elim p.razorpay_payment_id [ none ↦ false | some own ↦ own == id ]

-- The row that both SELECTs of the payment find, by its booking; the column is unique.
unfoldable pub booking_of : ℕ → List Payment → Option ℕ
booking_of id [] = none
booking_of id (p ∷ rest) = if is_payment id p then some p.booking_id else booking_of id rest

abbrev pub set_status : PaymentStatus → ℕ → Payment → Payment
set_status status now p = record p { status = status; updated_at = now }

unfoldable pub move_payment : ℕ → PaymentStatus → ℕ → List Payment → List Payment
move_payment id status now t =
    update_where (λ p. is_payment id p && is_created p.status) (set_status status now) t

abbrev pub confirm_row : ℕ → Booking → Booking
confirm_row now b = record b { payment_status = paid; status = confirmed; updated_at = now }

unfoldable pub confirm_booking : ℕ → ℕ → List Booking → List Booking
confirm_booking booking now t =
    update_where (λ b. b.id == booking && is_waiting b.status) (confirm_row now) t

abbrev pub apply_capture : ℕ → ℕ → ℕ → Ledger → Ledger
apply_capture id booking now l = record {
  payments = move_payment id captured now l.payments;
  bookings = confirm_booking booking now l.bookings;
}

abbrev pub apply_locked : EventType → ℕ → ℕ → Ledger → Option ℕ → Ledger
apply_locked e id now l none = l
apply_locked payment_captured id now l (some booking) = apply_capture id booking now l
apply_locked payment_authorized id now l (some booking) = apply_capture id booking now l
apply_locked payment_failed id now l (some booking) = record l {
  payments = move_payment id failed now l.payments;
}
apply_locked unhandled id now l (some booking) = l

-- `applyPaymentEvent`; an event without a payment id does nothing.
unfoldable pub apply_payment_event : EventType → Option ℕ → ℕ → Ledger → Ledger
apply_payment_event e none now l = l
apply_payment_event e (some id) now l = apply_locked e id now l (booking_of id l.payments)

-- Events of webhooks, each with its payment id and the time.
unfoldable pub apply_all : List (EventType × Option ℕ × ℕ) → Ledger → Ledger
apply_all [] l = l
apply_all ((e, id, now) ∷ es) l = apply_all es (apply_payment_event e id now l)
