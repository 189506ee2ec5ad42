-- ===== src/Webhook/Refunding.antt =====
-- What becomes of a payment over all events of webhooks.
use helloplanbuddy_cmd_plan.Base.{
  ℕ, ◌≡◌, refl, sym, ap, ◌∙◌, inl, inr, Bool, true, false, ◌&&◌, Option, none, some, List, [], ◌∷◌,
  arith, Bool-cases,
}
use helloplanbuddy_cmd_plan.Engine.Table.{update_where}
use helloplanbuddy_cmd_plan.Webhook.Payments.{
  PaymentStatus, created, captured, failed, refunded, refund_failed, Payment, Ledger, EventType,
  booking_of, apply_payment_event, payment_captured, payment_authorized, payment_failed, unhandled,
  is_created, set_status, move_payment, apply_locked,
}
use helloplanbuddy_cmd_plan.Webhook.Refunds.{
  RefundType, refund_processed, refund_paid, other_refund, is_captured, refund_row, refund_payment,
  apply_refund, with_ids, apply_refund_event, Event, payment_event, refund_event, or_rolled_back,
  without_payment, apply_event, apply_events,
}

infix 40 ◌⟶◌ ◌⟶*◌
-- The steps that a payment's status may take, and runs of them.
pub data ◌⟶◌ : PaymentStatus → PaymentStatus → Type 0 where
  captures : created ⟶ captured
  fails : created ⟶ failed
  refunds : captured ⟶ refunded

pub data ◌⟶*◌ : PaymentStatus → PaymentStatus → Type 0 where
  stay : {s : PaymentStatus} → s ⟶* s
  go : {s t u : PaymentStatus} → s ⟶ t → t ⟶* u → s ⟶* u

⟶*-trans : {s t u : PaymentStatus} → s ⟶* t → t ⟶* u → s ⟶* u
⟶*-trans stay k = k
⟶*-trans (go a h) k = go a (⟶*-trans h k)

-- What becomes of a row: it stays the row of its payment and booking, its status takes such steps, and
-- the refund that it records is recorded once.
pub record Follows (p q : Payment) : Type 0 where
  pub same_payment : q.razorpay_payment_id ≡ p.razorpay_payment_id
  pub same_booking : q.booking_id ≡ p.booking_id
  pub steps : p.status ⟶* q.status
  pub kept : p.status ≡ refunded → q ≡ p

Follows-refl : (p : Payment) → Follows p p
Follows-refl p = record { same_payment = refl; same_booking = refl; steps = stay; kept = λ h. refl }

Follows-trans : (p q r : Payment) → Follows p q → Follows q r → Follows p r
Follows-trans p q r f g = record {
  same_payment = g.same_payment ∙ f.same_payment;
  same_booking = g.same_booking ∙ f.same_booking;
  steps = ⟶*-trans f.steps g.steps;
  kept = λ h. g.kept (ap (λ k. k.status) (f.kept h) ∙ h) ∙ f.kept h;
}

-- The rows of two tables, one by one.
abbrev pub AllFollow : List Payment → List Payment → Type 0
AllFollow [] [] = Unit
AllFollow [] (q ∷ qs) = ⊥
AllFollow (p ∷ ps) [] = ⊥
AllFollow (p ∷ ps) (q ∷ qs) = Follows p q × AllFollow ps qs

all_refl : (ps : List Payment) → AllFollow ps ps
all_refl [] = tt
all_refl (p ∷ ps) = (Follows-refl p, all_refl ps)

all_trans : (ps qs rs : List Payment) → AllFollow ps qs → AllFollow qs rs → AllFollow ps rs
all_trans [] [] rs f g = g
all_trans [] (q ∷ qs) rs f g = absurd f
all_trans (p ∷ ps) [] rs f g = absurd f
all_trans (p ∷ ps) (q ∷ qs) [] f g = absurd g
all_trans (p ∷ ps) (q ∷ qs) (r ∷ rs) f g = (Follows-trans p q r f.0 g.0, all_trans ps qs rs f.1 g.1)

update-Follows :
    (test : Payment → Bool) (f : Payment → Payment)
    → ((p : Payment) → test p ≡ true → Follows p (f p))
    → (ps : List Payment) → AllFollow ps (update_where test f ps)
unfolding update_where
update-Follows test f hit [] = tt
update-Follows test f hit (p ∷ ps) = elim (Bool-cases (test p)) [
  | inl e ↦ rw e (hit p e, update-Follows test f hit ps)
  | inr e ↦ rw e (Follows-refl p, update-Follows test f hit ps)
]

created_only : (s : PaymentStatus) → is_created s ≡ true → s ≡ created
created_only created h = refl
created_only captured h = cc
created_only failed h = cc
created_only refunded h = cc
created_only refund_failed h = cc

captured_only : (s : PaymentStatus) → is_captured s ≡ true → s ≡ captured
captured_only created h = cc
captured_only captured h = refl
captured_only failed h = cc
captured_only refunded h = cc
captured_only refund_failed h = cc

right_of_and : (a b : Bool) → a && b ≡ true → b ≡ true
right_of_and a b h = ground (arith, h)

moved-Follows :
    (status : PaymentStatus) (now : ℕ) (p : Payment)
    → created ⟶ status
    → p.status ≡ created
    → Follows p (set_status status now p)
moved-Follows status now p a h = record {
  same_payment = refl;
  same_booking = refl;
  steps = rw h (go a stay);
  kept = λ k. let e : created ≡ refunded = sym h ∙ k in cc;
}

move_follows :
    (id : ℕ) (status : PaymentStatus) (now : ℕ) (ps : List Payment)
    → created ⟶ status
    → AllFollow ps (move_payment id status now ps)
unfolding move_payment
move_follows id status now ps a =
    update-Follows _ (set_status status now)
      (λ p h. moved-Follows status now p a (created_only p.status (right_of_and _ _ h))) ps

refunded-Follows :
    (refund now : ℕ) (p : Payment) → p.status ≡ captured → Follows p (refund_row refund now p)
refunded-Follows refund now p h = record {
  same_payment = refl;
  same_booking = refl;
  steps = rw h (go refunds stay);
  kept = λ k. let e : captured ≡ refunded = sym h ∙ k in cc;
}

refund_follows :
    (id refund now : ℕ) (ps : List Payment) → AllFollow ps (refund_payment id refund now ps)
unfolding refund_payment
refund_follows id refund now ps =
    update-Follows _ (refund_row refund now)
      (λ p h. refunded-Follows refund now p (captured_only p.status (right_of_and _ _ h))) ps

locked_follows :
    (e : EventType) (id now : ℕ) (l : Ledger) (found : Option ℕ)
    → AllFollow l.payments (apply_locked e id now l found).payments
locked_follows e id now l none = all_refl l.payments
locked_follows payment_captured id now l (some b) = move_follows id captured now l.payments captures
locked_follows payment_authorized id now l (some b) =
    move_follows id captured now l.payments captures
locked_follows payment_failed id now l (some b) = move_follows id failed now l.payments fails
locked_follows unhandled id now l (some b) = all_refl l.payments

payment_follows :
    (e : EventType) (id : Option ℕ) (now : ℕ) (l : Ledger)
    → AllFollow l.payments (apply_payment_event e id now l).payments
unfolding apply_payment_event
payment_follows e none now l = all_refl l.payments
payment_follows e (some id) now l = locked_follows e id now l (booking_of id l.payments)

found_follows :
    (accepts : Bool) (id refund now : ℕ) (l : Ledger) (found : Option ℕ)
    → AllFollow l.payments (or_rolled_back l (apply_refund accepts id refund now l found)).payments
found_follows accepts id refund now l none = all_refl l.payments
found_follows true id refund now l (some b) = refund_follows id refund now l.payments
found_follows false id refund now l (some b) = all_refl l.payments

without_follows :
    (accepts : Bool) (e : RefundType) (l : Ledger)
    → AllFollow l.payments (or_rolled_back l (without_payment accepts e l)).payments
without_follows accepts other_refund l = all_refl l.payments
without_follows true refund_processed l = all_refl l.payments
without_follows false refund_processed l = all_refl l.payments
without_follows true refund_paid l = all_refl l.payments
without_follows false refund_paid l = all_refl l.payments

ids_follow :
    (accepts : Bool) (e : RefundType) (refund id : Option ℕ) (now : ℕ) (l : Ledger)
    → AllFollow l.payments (or_rolled_back l (with_ids accepts e refund id now l)).payments
ids_follow accepts e none id now l = all_refl l.payments
ids_follow accepts e (some r) none now l = without_follows accepts e l
ids_follow accepts refund_processed (some r) (some id) now l = found_follows accepts id r now l _
ids_follow accepts refund_paid (some r) (some id) now l = found_follows accepts id r now l _
ids_follow accepts other_refund (some r) (some id) now l = all_refl l.payments

event_follows :
    (e : Event) (now : ℕ) (l : Ledger) → AllFollow l.payments (apply_event e now l).payments
unfolding apply_event apply_refund_event
event_follows (payment_event e id) now l = payment_follows e id now l
event_follows (refund_event accepts e refund id) now l = ids_follow accepts e refund id now l

-- Whatever events of payments and refunds come, in any order and with whatever statements refused,
-- every payment stays the payment of its booking, its status goes from created to captured or failed
-- and from captured to refunded, and a payment that is refunded keeps the refund that it records.
pub payments_follow :
    (es : List (Event × ℕ)) (l : Ledger) → AllFollow l.payments (apply_events es l).payments
unfolding apply_events
payments_follow [] l = all_refl l.payments
payments_follow ((e, now) ∷ es) l =
    all_trans l.payments (apply_event e now l).payments _ (event_follows e now l)
      (payments_follow es (apply_event e now l))
