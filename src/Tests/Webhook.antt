-- ===== src/Tests/Webhook.antt =====
-- Runs of planbuddy_v9/controllers/razorpayWebhookController.js.
use helloplanbuddy_cmd_plan.Base.{
  ℕ, ◌≤◌, ◌≡◌, refl, ◌⊎◌, true, false, none, some, List, [], ◌∷◌, ◌++◌, arith,
}
use helloplanbuddy_cmd_plan.Base.Text.{text_eq}
use helloplanbuddy_cmd_plan.Booking.Rows.{pending, unpaid, Booking}
use helloplanbuddy_cmd_plan.Webhook.Ingest.{
  Payload, buffer, Services, Request, Inbox, accepted, proceed, check_request, Run, handle,
  signature_header, get_header, verify_signature, extract_provider_event_id,
}
use helloplanbuddy_cmd_plan.Webhook.Dedup.{Delivery, deliver_all, rows_of, retries_one_row}
use helloplanbuddy_cmd_plan.Webhook.Authentic.{status_code, Signed, authentic_or_refused}
use helloplanbuddy_cmd_plan.Webhook.Payments.{created, Payment, Ledger, payment_captured}
use helloplanbuddy_cmd_plan.Webhook.Refunds.{
  refund_processed, refund_paid, Event, payment_event, refund_event, apply_events,
}
use helloplanbuddy_cmd_plan.Webhook.Refunding.{AllFollow, payments_follow}

abbrev payload : Payload
payload = record {
  id = some (101 ∷ []);
  event_id = none;
  nested_id = none;
  event = some (112 ∷ []);
  nested_type = none;
}

abbrev services : Services
services = record {
  secret = some (115 ∷ []);
  extract_payload_bytes = λ body. none;
  verify_ingress_timestamp = λ t. none;
  hmac = λ secret raw. secret ++ raw;
  from_hex = λ t. t;
  parse = λ raw. some payload;
}

abbrev request : Request
request = record {
  headers = (signature_header, 115 ∷ 123 ∷ []) ∷ [];
  body = buffer (123 ∷ []);
  request_id = none;
}

abbrev smooth : Run
smooth = record { new_id = 1; insert_fails = false; enqueue_fails = false }

abbrev again : List Delivery
again =
    record { run = record smooth { new_id = 2 }; request = request }
    ∷ record { run = record smooth { new_id = 3; insert_fails = true }; request = request }
    ∷ []

abbrev empty : Inbox
empty = record { events = []; added = [] }

passes_checks : check_request services request ≡ proceed (123 ∷ []) payload (101 ∷ [])
unfolding check_request verify_signature get_header extract_provider_event_id text_eq
passes_checks = refl

retries_one_row_example :
    ((handle services smooth request empty).1 ≡ accepted)
    × (rows_of
          (101 ∷ [])
          (deliver_all services again (handle services smooth request empty).0).events
        ≡ 1)
unfolding rows_of
retries_one_row_example =
    retries_one_row services smooth request (123 ∷ []) payload (101 ∷ []) again empty (omega arith)
      passes_checks refl

authentic_or_refused_example :
    Signed services request
    ⊎ (((handle services smooth request empty).0 ≡ empty)
        × (400 ≤ status_code (handle services smooth request empty).1))
authentic_or_refused_example = authentic_or_refused services smooth request empty (λ t status h. cc)

abbrev booking : Booking
booking = record {
  id = 1;
  status = pending;
  payment_status = unpaid;
  trip_id = 9;
  user_id = 5;
  group_size = 3;
  cancelled_at = none;
  cancellation_reason = none;
  cancelled_by = none;
  updated_at = 0;
}

abbrev payment : Payment
payment = record {
  razorpay_payment_id = some 40;
  booking_id = 1;
  status = created;
  refund_id = none;
  refunded_at = none;
  updated_at = 0;
}

abbrev ledger : Ledger
ledger = record { payments = payment ∷ []; bookings = booking ∷ [] }

abbrev events : List (Event × ℕ)
events =
    (payment_event payment_captured (some 40), 10)
    ∷ (refund_event true refund_processed (some 7) (some 40), 11)
    ∷ (refund_event true refund_paid (some 8) (some 40), 12)
    ∷ []

payments_follow_example : AllFollow ledger.payments (apply_events events ledger).payments
payments_follow_example = payments_follow events ledger
