-- ===== src/Webhook/Settling.antt =====
-- What payment events may change, and what they leave alone.
use helloplanbuddy_cmd_plan.Base.{
  ℕ, ◌≡◌, refl, ap, inl, inr, Bool, true, false, ◌&&◌, Option, none, some, List, [], ◌∷◌, arith,
  ◌==◌, Bool-cases, All, All-map,
}
use helloplanbuddy_cmd_plan.Engine.Table.{update_where, update_where_none}
use helloplanbuddy_cmd_plan.Booking.Rows.{Booking, is_waiting, find_booking}
use helloplanbuddy_cmd_plan.Webhook.Payments.{
  PaymentStatus, captured, failed, Payment, Ledger, EventType, payment_captured, payment_authorized,
  payment_failed, unhandled, is_created, is_payment, booking_of, set_status, move_payment,
  confirm_row, confirm_booking, apply_capture, apply_locked, apply_payment_event, apply_all,
}

update_twice {ℓ} :
    {A : Type ℓ} (p : A → Bool) (f g : A → A)
    → ((r : A) → p r ≡ true → p (f r) ≡ false)
    → (t : List A) → update_where p g (update_where p f t) ≡ update_where p f t
unfolding update_where
update_twice p f g off [] = refl
update_twice p f g off (r ∷ t) = elim (Bool-cases (p r)) [
  | inl e ↦ rw (e, off r e, update_twice p f g off t) refl
  | inr e ↦ rw (e, e, update_twice p f g off t) refl
]

booking_of-move :
    (id other : ℕ) (status : PaymentStatus) (now : ℕ) (t : List Payment)
    → booking_of id (move_payment other status now t) ≡ booking_of id t
unfolding booking_of move_payment update_where
booking_of-move id other status now [] = refl
booking_of-move id other status now (p ∷ t) =
    elim (Bool-cases (is_payment other p && is_created p.status)) [
      | inl e ↦ rw (e, booking_of-move id other status now t) refl
      | inr e ↦ rw (e, booking_of-move id other status now t) refl
    ]

move_twice :
    (id : ℕ) (status : PaymentStatus) (now later : ℕ) (t : List Payment)
    → is_created status ≡ false
    → move_payment id status later (move_payment id status now t) ≡ move_payment id status now t
unfolding move_payment
move_twice id status now later t h =
    update_twice (λ p. is_payment id p && is_created p.status) (set_status status now)
      (set_status status later) (λ p e. rw h (ground arith)) t

confirm_twice :
    (booking now later : ℕ) (t : List Booking)
    → confirm_booking booking later (confirm_booking booking now t) ≡ confirm_booking booking now t
unfolding confirm_booking
confirm_twice booking now later t =
    update_twice (λ b. b.id == booking && is_waiting b.status) (confirm_row now) (confirm_row later)
      (λ b e. ground arith) t

capture_twice :
    (id booking now later : ℕ) (l : Ledger)
    → apply_capture id booking later (apply_capture id booking now l)
      ≡ apply_capture id booking now l
capture_twice id booking now later l =
    rw
      (move_twice id captured now later l.payments refl, confirm_twice booking now later l.bookings)
      refl

locked_twice :
    (e : EventType) (id now later : ℕ) (l : Ledger) (found : Option ℕ)
    → apply_locked e id later (apply_locked e id now l found) found ≡ apply_locked e id now l found
locked_twice e id now later l none = refl
locked_twice payment_captured id now later l (some b) = capture_twice id b now later l
locked_twice payment_authorized id now later l (some b) = capture_twice id b now later l
locked_twice payment_failed id now later l (some b) =
    rw (move_twice id failed now later l.payments refl) refl
locked_twice unhandled id now later l (some b) = refl

found_after :
    (e : EventType) (id now : ℕ) (l : Ledger) (found : Option ℕ)
    → booking_of id (apply_locked e id now l found).payments ≡ booking_of id l.payments
found_after e id now l none = refl
found_after payment_captured id now l (some b) = booking_of-move id id captured now l.payments
found_after payment_authorized id now l (some b) = booking_of-move id id captured now l.payments
found_after payment_failed id now l (some b) = booking_of-move id id failed now l.payments
found_after unhandled id now l (some b) = refl

-- An event that is applied again, at any later time, changes nothing, not even a time stamp.
pub payment_event_repeated :
    (e : EventType) (id : Option ℕ) (now later : ℕ) (l : Ledger)
    → apply_payment_event e id later (apply_payment_event e id now l)
      ≡ apply_payment_event e id now l
unfolding apply_payment_event
payment_event_repeated e none now later l = refl
payment_event_repeated e (some id) now later l =
    rw (found_after e id now l (booking_of id l.payments))
      (locked_twice e id now later l (booking_of id l.payments))

unmoved :
    (id : ℕ) (status : PaymentStatus) (now : ℕ) (t : List Payment)
    → All (λ p. is_payment id p && is_created p.status ≡ false) t
    → move_payment id status now t ≡ t
unfolding move_payment
unmoved id status now t h =
    (update_where_none (λ p. is_payment id p && is_created p.status) (set_status status now) t h).0

find_confirmed :
    (booking now : ℕ) (b : Booking) (t : List Booking)
    → find_booking booking t ≡ some b
    → is_waiting b.status ≡ true
    → find_booking booking (confirm_booking booking now t) ≡ some (confirm_row now b)
unfolding find_booking confirm_booking update_where
find_confirmed booking now b [] h w = absurd (ground arith)
find_confirmed booking now b (c ∷ t) h w = elim (Bool-cases (c.id == booking)) [
  | inl e ↦
      let hit : some c ≡ some b = rw e at h in
      let same : c ≡ b = cc in
      let waiting : is_waiting c.status ≡ true = rw same w in
      rw (e, waiting, e) (ap (λ k. some (confirm_row now k)) same)
  | inr e ↦ rw (e, e) (find_confirmed booking now b t (rw e at h) w)
]

-- When the payment's row is no longer 'created', because it has failed or was refunded, a capture or
-- an authorization that comes later leaves the payment as it is, and yet makes its pending booking
-- confirmed and paid.
pub late_capture_confirms :
    (id booking now : ℕ) (b : Booking) (l : Ledger)
    → booking_of id l.payments ≡ some booking
    → All (λ p. is_payment id p && is_created p.status ≡ false) l.payments
    → find_booking booking l.bookings ≡ some b
    → is_waiting b.status ≡ true
    → let m = apply_payment_event payment_captured (some id) now l in
      (m.payments ≡ l.payments) × (find_booking booking m.bookings ≡ some (confirm_row now b))
unfolding apply_payment_event
late_capture_confirms id booking now b l found settled row waiting = rw found (
  unmoved id captured now l.payments settled,
  find_confirmed booking now b l.bookings row waiting,
)

settled_cases :
    (e : EventType) (id now : ℕ) (l : Ledger) (found : Option ℕ)
    → move_payment id captured now l.payments ≡ l.payments
    → move_payment id failed now l.payments ≡ l.payments
    → ((b : ℕ) → confirm_booking b now l.bookings ≡ l.bookings)
    → apply_locked e id now l found ≡ l
settled_cases e id now l none hc hf hb = refl
settled_cases payment_captured id now l (some b) hc hf hb = rw (hc, hb b) refl
settled_cases payment_authorized id now l (some b) hc hf hb = rw (hc, hb b) refl
settled_cases payment_failed id now l (some b) hc hf hb = rw hf refl
settled_cases unhandled id now l (some b) hc hf hb = refl

settled_locked :
    (e : EventType) (id now : ℕ) (l : Ledger) (found : Option ℕ)
    → All (λ p. is_created p.status ≡ false) l.payments
    → All (λ b. is_waiting b.status ≡ false) l.bookings
    → apply_locked e id now l found ≡ l
unfolding confirm_booking
settled_locked e id now l found hp hb =
    let still : (s : PaymentStatus) → move_payment id s now l.payments ≡ l.payments =
      λ s. unmoved id s now l.payments (All-map (λ p h. ground arith) l.payments hp) in
    let booked : (b : ℕ) → confirm_booking b now l.bookings ≡ l.bookings = λ b.
      (update_where_none (λ k. k.id == b && is_waiting k.status) (confirm_row now) l.bookings
        (All-map (λ k h. ground arith) l.bookings hb)).0 in
    settled_cases e id now l found (still captured) (still failed) booked

settled_once :
    (e : EventType) (id : Option ℕ) (now : ℕ) (l : Ledger)
    → All (λ p. is_created p.status ≡ false) l.payments
    → All (λ b. is_waiting b.status ≡ false) l.bookings
    → apply_payment_event e id now l ≡ l
unfolding apply_payment_event
settled_once e none now l hp hb = refl
settled_once e (some id) now l hp hb = settled_locked e id now l (booking_of id l.payments) hp hb

-- Whatever payment events come, in any order, a payment that is no longer 'created' and a booking that
-- is no longer pending stay as they are.
pub settled_rows_stay :
    (es : List (EventType × Option ℕ × ℕ)) (l : Ledger)
    → All (λ p. is_created p.status ≡ false) l.payments
    → All (λ b. is_waiting b.status ≡ false) l.bookings
    → apply_all es l ≡ l
unfolding apply_all
settled_rows_stay [] l hp hb = refl
settled_rows_stay ((e, id, now) ∷ es) l hp hb =
    let first = settled_once e id now l hp hb in rw first (settled_rows_stay es l hp hb)
