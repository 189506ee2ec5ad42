-- ===== src/Booking/Seats.antt =====
-- The places of a trip, under cancellations in any order.
use helloplanbuddy_cmd_plan.Base.{
  ℕ, ◌+◌, ◌≡◌, refl, sym, ap, ◌∙◌, ◌≢◌, inl, inr, Bool, true, false, not, ◌&&◌, Option, none, some,
  List, [], ◌∷◌, arith, ◌==◌, if◌then◌else◌, Bool-cases, All, All-map,
}
use mathlib.Core.Path.{subst}
use helloplanbuddy_cmd_plan.Engine.Table.{update_where, update_where_none, All-update_where}
use helloplanbuddy_cmd_plan.Booking.Rows.{Booking, Trip, Tables, find_booking, find_trip}
use helloplanbuddy_cmd_plan.Booking.Cancel.{
  CancelFaults, CancelResult, threw, query_failed, is_terminal, cancel_row, release_row,
  cancel_tables, write_cancel, cancel_found, cancel_booking,
}

-- The places that the bookings of a trip take up.
unfoldable pub seats : ℕ → List Booking → ℕ
seats trip [] = 0
seats trip (b ∷ rest) =
    (if not (is_terminal b.status) && b.trip_id == trip then b.group_size else 0) + seats trip rest

-- No two bookings have the same id.
unfoldable pub KeyedById : List Booking → Type 0
KeyedById [] = Unit
KeyedById (b ∷ rest) = All (λ c. c.id ≢ b.id) rest × KeyedById rest

-- The counter of every trip is the number of places taken.
abbrev pub Balanced : Tables → Type 0
Balanced s = All (λ t. t.current_bookings ≡ seats t.id s.bookings) s.trips

others_kept :
    (id : ℕ) (f : Booking → Booking) (t : List Booking)
    → All (λ c. c.id ≢ id) t
    → update_where (λ k. k.id == id) f t ≡ t
others_kept id f t h =
    (update_where_none (λ k. k.id == id) f t (All-map (λ c ne. ground arith) t h)).0

self_equal : (n : ℕ) → (n == n) ≡ true
self_equal n = ground arith

released_head :
    (reason by now trip : ℕ) (c : Booking) (t : List Booking)
    → All (λ k. k.id ≢ c.id) t
    → is_terminal c.status ≡ false
    → seats trip (update_where (λ k. k.id == c.id) (cancel_row reason by now) (c ∷ t))
        + (if c.trip_id == trip then c.group_size else 0)
      ≡ seats trip (c ∷ t)
unfolding seats update_where
released_head reason by now trip c t fresh active =
    rw (others_kept c.id (cancel_row reason by now) t fresh, self_equal c.id, active) (ground arith)

released :
    (reason by now trip : ℕ) (b : Booking) (t : List Booking)
    → KeyedById t
    → find_booking b.id t ≡ some b
    → is_terminal b.status ≡ false
    → seats trip (update_where (λ k. k.id == b.id) (cancel_row reason by now) t)
        + (if b.trip_id == trip then b.group_size else 0)
      ≡ seats trip t
unfolding seats update_where find_booking KeyedById
released reason by now trip b [] u found active = absurd (ground arith)
released reason by now trip b (c ∷ t) u found active = elim (Bool-cases (c.id == b.id)) [
  | inl e ↦
      let hit : some c ≡ some b = rw e at found in
      let same : c ≡ b = cc in
      subst
        (λ k.
          seats trip (update_where (λ r. r.id == k.id) (cancel_row reason by now) (c ∷ t))
            + (if k.trip_id == trip then k.group_size else 0)
          ≡ seats trip (c ∷ t))
        same (released_head reason by now trip c t u.0 (rw same active))
  | inr e ↦
      let miss : find_booking b.id t ≡ some b = rw e at found in
      let rest = released reason by now trip b t u.1 miss active in rw e (ground (arith, rest))
]

kept_ids :
    (reason by now id : ℕ) (t : List Booking)
    → KeyedById t
    → KeyedById (update_where (λ k. k.id == id) (cancel_row reason by now) t)
unfolding KeyedById update_where
kept_ids reason by now id [] u = tt
kept_ids reason by now id (c ∷ t) u =
    let heads : All (λ k. k.id ≢ c.id)
        (update_where (λ k. k.id == id) (cancel_row reason by now) t) =
      All-update_where (λ k. k.id ≢ c.id) (λ k. k.id ≢ c.id) (λ k. k.id == id)
        (cancel_row reason by now) (λ k h e. h) (λ k h e. h) t u.0 in
    let rest = kept_ids reason by now id t u.1 in
    elim (Bool-cases (c.id == id)) [ inl e ↦ rw e (heads, rest) | inr e ↦ rw e (heads, rest) ]

trip_released :
    (reason by now : ℕ) (b : Booking) (s : Tables)
    → KeyedById s.bookings
    → find_booking b.id s.bookings ≡ some b
    → is_terminal b.status ≡ false
    → Balanced s
    → Balanced (cancel_tables b reason by now s)
unfolding cancel_tables
trip_released reason by now b s u found active h =
    All-update_where (λ t. t.current_bookings ≡ seats t.id s.bookings) _ (λ t. t.id == b.trip_id)
      (release_row b.group_size now)
      (λ t k e.
        let sum = released reason by now t.id b s.bookings u found active in ground (arith, sum))
      (λ t k e.
        let sum = released reason by now t.id b s.bookings u found active in ground (arith, sum))
      s.trips h

-- What a cancellation keeps.
abbrev pub Consistent : Tables → Type 0
Consistent s = KeyedById s.bookings × Balanced s

pub found_id : (id : ℕ) (t : List Booking) (b : Booking) → find_booking id t ≡ some b → b.id ≡ id
unfolding find_booking
found_id id [] b h = absurd (ground arith)
found_id id (c ∷ t) b h = elim (Bool-cases (c.id == id)) [
  | inl e ↦
      let hit : some c ≡ some b = rw e at h in let same : c ≡ b = cc in rw (sym same) (ground arith)
  | inr e ↦ found_id id t b (rw e at h)
]

written_cancel :
    (f : CancelFaults) (reason by now : ℕ) (s : Tables) (b : Booking) (trip : Option Trip)
    → find_booking b.id s.bookings ≡ some b
    → is_terminal b.status ≡ false
    → Consistent s
    → Consistent (write_cancel f b reason by now s trip).0
unfolding cancel_tables
written_cancel f reason by now s b none found active h = h
written_cancel f reason by now s b (some t) found active h = elim (Bool-cases f.tx_fails) [
  | inl e ↦ rw e h
  | inr e ↦ rw e (
    kept_ids reason by now b.id s.bookings h.0,
    trip_released reason by now b s h.0 found active h.1,
  )
]

found_cancel :
    (f : CancelFaults) (reason by now : ℕ) (s : Tables) (b : Booking)
    → find_booking b.id s.bookings ≡ some b
    → Consistent s
    → Consistent (cancel_found f reason by now s (some b)).0
found_cancel f reason by now s b found h = elim (Bool-cases (is_terminal b.status)) [
  | inl e ↦ rw e h
  | inr e ↦ rw e (written_cancel f reason by now s b (find_trip b.trip_id s.trips) found e h)
]

looked_up :
    (f : CancelFaults) (id reason by now : ℕ) (s : Tables) (found : Option Booking)
    → find_booking id s.bookings ≡ found
    → Consistent s
    → Consistent (cancel_found f reason by now s found).0
looked_up f id reason by now s none e h = h
looked_up f id reason by now s (some b) e h =
    found_cancel f reason by now s b
      (ap (λ i. find_booking i s.bookings) (found_id id s.bookings b e) ∙ e) h

either :
    (b : Bool) (x y : Tables × CancelResult)
    → Consistent x.0
    → Consistent y.0
    → Consistent (if b then x else y).0
either true x y h k = h
either false x y h k = k

-- Every call of cancelBooking, with whatever failures, keeps the counter of every trip equal to the
-- places that its bookings take up, and keeps the booking ids distinct.
pub cancel-Consistent :
    (f : CancelFaults) (id reason by now : ℕ) (s : Tables)
    → Consistent s
    → Consistent (cancel_booking f id reason by now s).0
unfolding cancel_booking
cancel-Consistent f id reason by now s h =
    either f.lock_fails (s, threw query_failed)
      (cancel_found f reason by now s (find_booking id s.bookings)) h
      (looked_up f id reason by now s (find_booking id s.bookings) refl h)
