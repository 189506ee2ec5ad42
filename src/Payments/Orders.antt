-- ===== src/Payments/Orders.antt =====
-- paymentController.js: `createOrder`, `verifyPayment` and `getPaymentStatus`. Ids are numbers that are
-- only compared; amounts are whole paise where they are numbers.
use helloplanbuddy_cmd_plan.Base.{
  ℕ, Bool, true, false, not, ◌&&◌, ◌||◌, Option, none, some, List, [], ◌∷◌, ◌==◌, if◌then◌else◌,
}
use helloplanbuddy_cmd_plan.Base.Text.{Text}
use helloplanbuddy_cmd_plan.Engine.Table.{update_where}
use helloplanbuddy_cmd_plan.Booking.Rows.{
  BookingStatus, is_waiting, PaidStatus, unpaid, paid, refunded,
}
use helloplanbuddy_cmd_plan.Booking.Requests.{Requester, is_admin}

-- A value of a column as the driver gives it: a NUMERIC column comes as a text.
pub data Value : Type 0 where
  number : ℕ → Value
  text : Text → Value

-- `===` on a value and a number.
abbrev pub is_identical : Value → ℕ → Bool
is_identical (number n) k = n == k
is_identical (text t) k = false

-- A booking joined with its trip.
pub record Row : Type 0 where
  pub id : ℕ
  pub user_id : ℕ
  pub total_amount : Value
  pub currency : Option ℕ
  pub status : BookingStatus
  pub payment_status : PaidStatus
  pub group_size : ℕ
  pub price : Value
  pub is_active : Bool

-- A row of razorpay_order_mappings.
pub record Mapping : Type 0 where
  pub order_id : ℕ
  pub booking_id : ℕ
  pub user_id : ℕ
  pub amount : Value

pub record Payment : Type 0 where
  pub id : ℕ
  pub razorpay_payment_id : Option ℕ
  pub booking_id : ℕ
  pub user_id : ℕ
  pub is_created : Bool
  pub order_id : Option ℕ

pub record Tables : Type 0 where
  pub rows : List Row
  pub mappings : List Mapping
  pub payments : List Payment

-- `WHERE b.id = $1 AND b.user_id = $2`
unfoldable pub find_row : ℕ → ℕ → List Row → Option Row
find_row id user [] = none
find_row id user (r ∷ t) = if r.id == id && r.user_id == user then some r else find_row id user t

unfoldable pub has_mapping : ℕ → List Mapping → Bool
has_mapping order [] = false
has_mapping order (q ∷ t) = q.order_id == order || has_mapping order t

-- `INSERT … ON CONFLICT (razorpay_order_id) DO NOTHING`
unfoldable pub insert_mapping : Mapping → List Mapping → List Mapping
insert_mapping q t = if has_mapping q.order_id t then t else q ∷ t

-- The transaction behind an order.
unfoldable pub write_order : ℕ → Row → Tables → Tables
write_order order r s = record s {
  mappings =
      insert_mapping
        (record {
          order_id = order;
          booking_id = r.id;
          user_id = r.user_id;
          amount = r.total_amount;
        })
        s.mappings;
  payments =
      update_where (λ p. p.booking_id == r.id && p.is_created)
        (λ p. record p { order_id = some order }) s.payments;
}

pub data Answer : Type 0 where
  validation_error : Answer
  booking_not_found : Answer
  amount_validation_failed : Answer
  trip_inactive : Answer
  booking_not_eligible : Answer
  service_unavailable : Answer
  passed_to_next : Answer
  -- The order and its amount.
  ordered : ℕ → ℕ → Answer

-- A failure of the transaction, or of the audit entry after it.
pub record Faults : Type 0 where
  pub tx_fails : Bool
  pub audit_fails : Bool

abbrev pub is_unpaid : PaidStatus → Bool
is_unpaid unpaid = true
is_unpaid paid = false
is_unpaid refunded = false

-- `times` is `*` on a value and a number, `rupees_to_paise` that of config/razorpay.js, and
-- `create_order` the provider's, with an amount and a currency; it gives the order's id or throws.
module _ {ℓ} {S : Type ℓ} (times : Value → ℕ → ℕ) (rupees_to_paise : Value → ℕ)
    (create_order : ℕ → Option ℕ → S → S × Option ℕ) where
  abbrev pub after_order : Faults → Row → Tables → S × Option ℕ → (Tables × S) × Answer
  after_order f r s (p, none) = ((s, p), passed_to_next)
  after_order f r s (p, some order) = if f.tx_fails then ((s, p), passed_to_next) else (
    (write_order order r s, p),
    (if f.audit_fails then passed_to_next else ordered order (rupees_to_paise r.total_amount)),
  )

  unfoldable pub order_for : Faults → Bool → Option Row → Tables × S → (Tables × S) × Answer
  order_for f has_client none w = (w, booking_not_found)
  order_for f has_client (some r) (s, p) =
      if not (is_identical r.total_amount (times r.price r.group_size))
      then ((s, p), amount_validation_failed)
      else (if not r.is_active
          then ((s, p), trip_inactive)
          else (if not (is_waiting r.status) || not (is_unpaid r.payment_status)
              then ((s, p), booking_not_eligible)
              else (if not has_client
                  then ((s, p), service_unavailable)
                  else after_order f r s
                      (create_order (rupees_to_paise r.total_amount) r.currency p))))

  -- `createOrder`; `has_client` is whether the provider is configured.
  unfoldable pub request_order : Faults → Bool → Option ℕ → ℕ → Tables × S → (Tables × S) × Answer
  request_order f has_client none user w = (w, validation_error)
  request_order f has_client (some id) user (s, p) =
      order_for f has_client (find_row id user s.rows) (s, p)

-- What `verifyPayment` answers; the processing may find the payment already done.
pub data Verified : Type 0 where
  fields_missing : Verified
  verification_threw : Verified
  confirmed_now : Verified
  already_processed : Verified

-- `verify_signature` and `process` are those of the payment service: the first tells whether it does
-- not throw, and the second gives none if it throws, or whether the payment was already processed.
module _ {ℓ} {S : Type ℓ} (verify_signature : ℕ → ℕ → ℕ → Bool)
    (process : ℕ → ℕ → ℕ → S → S × Option Bool) where
  abbrev pub processed : S × Option Bool → S × Verified
  processed (s, none) = (s, verification_threw)
  processed (s, some true) = (s, already_processed)
  processed (s, some false) = (s, confirmed_now)

  unfoldable pub verify_payment : Option ℕ → Option ℕ → Option ℕ → ℕ → S → S × Verified
  verify_payment none payment signature user s = (s, fields_missing)
  verify_payment (some order) none signature user s = (s, fields_missing)
  verify_payment (some order) (some payment) none user s = (s, fields_missing)
  verify_payment (some order) (some payment) (some signature) user s =
      if verify_signature order payment signature
      then processed (process order payment user s)
      else (s, verification_threw)

-- `getPaymentStatus`: the first row with this id, of the user or for an administrator.
abbrev pub has_id : ℕ → Payment → Bool
has_id id p = p.id == id || elim p.razorpay_payment_id [ none ↦ false | some k ↦ k == id ]

unfoldable pub get_payment_status : Requester → ℕ → List Payment → Option Payment
get_payment_status q id [] = none
get_payment_status q id (p ∷ t) =
    let rest = get_payment_status q id t in
    if has_id id p && (p.user_id == q.id || is_admin q.role) then some p else rest
