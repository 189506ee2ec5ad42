-- ===== src/Payments/Guards.antt =====
-- Orders of the payment provider, and who sees a payment.
use mathlib.Core.Path.{subst}
use helloplanbuddy_cmd_plan.Base.{
  ℕ, ◌≡◌, refl, sym, ap, ◌∙◌, ◌≢◌, inl, inr, Bool, false, ◌&&◌, ◌||◌, Option, none, some, List, [],
  ◌∷◌, arith, ◌==◌, Bool-cases, Option-cases, All,
}
use helloplanbuddy_cmd_plan.Base.Text.{Text}
use helloplanbuddy_cmd_plan.Booking.Requests.{Requester, is_admin}
use helloplanbuddy_cmd_plan.Payments.Orders.{
  Value, text, Row, Payment, Tables, find_row, ordered, amount_validation_failed, Faults, order_for,
  request_order, get_payment_status, has_id,
}

payment_same : {r p : Payment} → some r ≡ some p → r ≡ p
payment_same h = cc h

module _ {ℓ} {S : Type ℓ} (times : Value → ℕ → ℕ) (rupees_to_paise : Value → ℕ)
    (create_order : ℕ → Option ℕ → S → S × Option ℕ) where
  -- While the amount of a booking is a text, as the driver gives it, no order is created for it and
  -- the provider is not asked.
  pub numeric_refused :
      (f : Faults) (has_client : Bool) (id user : ℕ) (t : Text) (r : Row) (s : Tables) (p : S)
      → find_row id user s.rows ≡ some r
      → r.total_amount ≡ text t
      → request_order times rupees_to_paise create_order f has_client (some id) user (s, p)
        ≡ ((s, p), amount_validation_failed)
  unfolding request_order order_for
  numeric_refused f has_client id user t r s p found column = rw (found, column) refl

-- The amount is a text, as the driver gives a NUMERIC.
abbrev pub HasTextAmount : Row → Type 0
HasTextAmount r = (t : Text) × (r.total_amount ≡ text t)

found_text :
    (id user : ℕ) (rs : List Row) (r : Row)
    → All HasTextAmount rs
    → find_row id user rs ≡ some r
    → HasTextAmount r
unfolding find_row
found_text id user [] r a h = cc
found_text id user (k ∷ rs) r a h = elim (Bool-cases (k.id == id && k.user_id == user)) [
  | inl hit ↦
      let found : some k ≡ some r = rw hit at h in
      let same : k ≡ r = cc in subst HasTextAmount same a.0
  | inr miss ↦ found_text id user rs r a.1 (rw miss at h)
]

module _ {ℓ} {S : Type ℓ} (times : Value → ℕ → ℕ) (rupees_to_paise : Value → ℕ)
    (create_order : ℕ → Option ℕ → S → S × Option ℕ) where
  -- Where the amounts of all bookings are texts, as the driver gives the columns of type NUMERIC, no
  -- request creates an order, whoever makes it for whatever booking: the tables stay as they are and the
  -- provider is not asked.
  pub no_order_created :
      (f : Faults) (has_client : Bool) (id : Option ℕ) (user : ℕ) (s : Tables) (p : S)
      → All HasTextAmount s.rows
      → let r = request_order times rupees_to_paise create_order f has_client id user (s, p) in
        (r.0 ≡ (s, p)) × ((order paise : ℕ) → r.1 ≢ ordered order paise)
  unfolding request_order order_for
  no_order_created f has_client none user s p texts = (refl, λ order paise h. cc)
  no_order_created f has_client (some id) user s p texts =
      elim (Option-cases (find_row id user s.rows)) [
        | inl missing ↦ rw missing (refl, λ order paise h. cc)
        | inr (r, found) ↦
            let (t, column) = found_text id user s.rows r texts found in
            let refused =
              numeric_refused times rupees_to_paise create_order f has_client id user t r s p found
                column in
            (ap (λ a. a.0) refused, λ order paise h. let e = sym h ∙ ap (λ a. a.1) refused in cc)
      ]

-- A payment that is shown to somebody who is not an administrator is his own.
pub shown_to_owner :
    (q : Requester) (id : ℕ) (t : List Payment) (p : Payment)
    → is_admin q.role ≡ false
    → get_payment_status q id t ≡ some p
    → p.user_id ≡ q.id
unfolding get_payment_status
shown_to_owner q id [] p plain h = cc
shown_to_owner q id (r ∷ t) p plain h =
    elim (Bool-cases (has_id id r && (r.user_id == q.id || is_admin q.role))) [
      | inl hit ↦
          let same : r ≡ p = payment_same (rw hit at h) in
          ap (λ k. k.user_id) (sym same) ∙ ground (arith, hit, plain)
      | inr miss ↦ shown_to_owner q id t p plain (rw miss at h)
    ]
