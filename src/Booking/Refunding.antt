-- ===== src/Booking/Refunding.antt =====
-- Cancellations of paid bookings through the controller.
use helloplanbuddy_cmd_plan.Base.{
  ℕ, ◌≡◌, refl, ◌≢◌, inl, inr, false, Option, some, List, [], ◌∷◌, arith, ◌==◌, Bool-cases,
}
use helloplanbuddy_cmd_plan.Engine.Table.{select, update_where}
use helloplanbuddy_cmd_plan.Booking.Rows.{cancellation_pending, Booking, Tables}
use helloplanbuddy_cmd_plan.Booking.Cancel.{CancelFaults, read_joined}
use helloplanbuddy_cmd_plan.Booking.Requests.{
  is_admin, access_denied, is_claimable, is_some, first, claim, CancelRequest, cancel_request,
}

-- The row after the claim.
abbrev claimed : ℕ → Booking → Booking
claimed now b = record b { status = cancellation_pending; updated_at = now }

claim_free :
    (id : ℕ) (t : List Booking) (now : ℕ)
    → is_some (first (select (is_claimable id) (update_where (is_claimable id) (claimed now) t)))
      ≡ false
unfolding update_where select
claim_free id [] now = refl
claim_free id (c ∷ t) now =
    let used : is_claimable id (claimed now c) ≡ false = ground arith in
    elim (Bool-cases (is_claimable id c)) [
      | inl e ↦ rw (e, used) (claim_free id t now)
      | inr e ↦ rw (e, e) (claim_free id t now)
    ]

-- Of two requests that claim a booking for its refund, whatever time lies between them, at most the
-- first succeeds.
pub claimed_once : (id now later : ℕ) (s : Tables) → (claim id later (claim id now s).0).1 ≡ false
unfolding claim
claimed_once id now later s = claim_free id s.bookings now

module _ {ℓ} {R : Type ℓ} (initiate_refund : ℕ → ℕ → ℕ → Tables × R → (Tables × R) × Option ℕ) where
  -- A request of somebody who is neither the booking's owner nor an administrator is refused and
  -- changes nothing.
  pub strangers_refused :
      (f : CancelFaults) (q : CancelRequest) (b : Booking) (s : Tables) (r : R)
      → read_joined q.booking_id s ≡ some b
      → b.user_id ≢ q.requester.id
      → is_admin q.requester.role ≡ false
      → cancel_request initiate_refund f q (s, r) ≡ ((s, r), access_denied)
  unfolding cancel_request
  strangers_refused f q b s r row other plain =
      let stranger : b.user_id == q.requester.id ≡ false = ground (arith, other) in
      rw (row, stranger, plain) refl
