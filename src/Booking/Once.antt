-- ===== src/Booking/Once.antt =====
-- A booking is cancelled once.
use helloplanbuddy_cmd_plan.Base.{
  ℕ, ◌-◌, ◌≡◌, refl, sym, ap, inl, inr, true, false, some, List, [], ◌∷◌, arith, ◌==◌, Bool-cases,
}
use mathlib.Core.Path.{subst}
use helloplanbuddy_cmd_plan.Engine.Table.{update_where}
use helloplanbuddy_cmd_plan.Booking.Rows.{cancelled, Booking, Trip, Tables, find_booking, find_trip}
use helloplanbuddy_cmd_plan.Booking.Cancel.{
  CancelFaults, is_terminal, cancel_row, release_row, cancel_tables, cancel_booking,
}
use helloplanbuddy_cmd_plan.Booking.Seats.{found_id}

find_cancelled :
    (reason by now id : ℕ) (b : Booking) (t : List Booking)
    → find_booking id t ≡ some b
    → find_booking id (update_where (λ k. k.id == id) (cancel_row reason by now) t)
      ≡ some (cancel_row reason by now b)
unfolding find_booking update_where
find_cancelled reason by now id b [] h = absurd (ground arith)
find_cancelled reason by now id b (c ∷ t) h = elim (Bool-cases (c.id == id)) [
  | inl e ↦
      let hit : some c ≡ some b = rw e at h in
      let same : c ≡ b = cc in rw (e, e) (ap (λ k. some (cancel_row reason by now k)) same)
  | inr e ↦ rw (e, e) (find_cancelled reason by now id b t (rw e at h))
]

find_released :
    (group_size now id : ℕ) (k : Trip) (t : List Trip)
    → find_trip id t ≡ some k
    → find_trip id (update_where (λ r. r.id == id) (release_row group_size now) t)
      ≡ some (release_row group_size now k)
unfolding find_trip update_where
find_released group_size now id k [] h = absurd (ground arith)
find_released group_size now id k (c ∷ t) h = elim (Bool-cases (c.id == id)) [
  | inl e ↦
      let hit : some c ≡ some k = rw e at h in
      let same : c ≡ k = cc in rw (e, e) (ap (λ r. some (release_row group_size now r)) same)
  | inr e ↦ rw (e, e) (find_released group_size now id k t (rw e at h))
]

cancel_terminal :
    (g : CancelFaults) (id reason by now : ℕ) (b : Booking) (v : Tables)
    → find_booking id v.bookings ≡ some b
    → is_terminal b.status ≡ true
    → (cancel_booking g id reason by now v).0 ≡ v
unfolding cancel_booking
cancel_terminal g id reason by now b v h e = rw h (simp e (ground arith))

cancel_commits :
    (f : CancelFaults) (id reason by now : ℕ) (b : Booking) (t : Trip) (s : Tables)
    → find_booking id s.bookings ≡ some b
    → is_terminal b.status ≡ false
    → find_trip b.trip_id s.trips ≡ some t
    → f.lock_fails ≡ false
    → f.tx_fails ≡ false
    → (cancel_booking f id reason by now s).0 ≡ cancel_tables b reason by now s
unfolding cancel_booking
cancel_commits f id reason by now b t s h active trip lock tx =
    rw h (simp (active, trip, lock, tx) refl)

-- A cancellation that is committed marks the booking as cancelled, with its reason, its caller and its
-- time, and lowers the counter of its trip by the size of its group, to 0 at least, and any second cancellation of it, with whatever failures, changes nothing.
pub cancelled_once :
    (f g : CancelFaults) (id reason by now other whom later : ℕ) (b : Booking) (t : Trip)
    (s : Tables)
    → find_booking id s.bookings ≡ some b
    → is_terminal b.status ≡ false
    → find_trip b.trip_id s.trips ≡ some t
    → f.lock_fails ≡ false
    → f.tx_fails ≡ false
    → let v = (cancel_booking f id reason by now s).0 in
      (find_booking id v.bookings
        ≡ some (record b {
          status = cancelled;
          cancelled_at = some now;
          cancellation_reason = some reason;
          cancelled_by = some by;
          updated_at = now;
        }))
      × (find_trip b.trip_id v.trips
          ≡ some
              (record t { current_bookings = t.current_bookings - b.group_size; updated_at = now }))
      × ((cancel_booking g id other whom later v).0 ≡ v)
unfolding cancel_tables
cancelled_once f g id reason by now other whom later b t s h active trip lock tx =
    let done = cancel_commits f id reason by now b t s h active trip lock tx in
    let named = found_id id s.bookings b h in
    let row : find_booking id (cancel_tables b reason by now s).bookings
        ≡ some (cancel_row reason by now b) =
      subst
        (λ i.
          find_booking id (update_where (λ k. k.id == i) (cancel_row reason by now) s.bookings)
          ≡ some (cancel_row reason by now b))
        (sym named) (find_cancelled reason by now id b s.bookings h) in
    rw done (
      row,
      find_released b.group_size now b.trip_id t s.trips trip,
      cancel_terminal g id other whom later (cancel_row reason by now b)
          (cancel_tables b reason by now s) row refl,
    )
