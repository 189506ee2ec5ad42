-- ===== src/Booking/Places.antt =====
-- The two queries of the availability against each other.
use mathlib.Core.List.{Perm}
use mathlib.Core.List.Perm
use helloplanbuddy_cmd_plan.Base.{ℕ, ◌≡◌, refl, ◌⊎◌, none, some, List, [], ◌∷◌}
use helloplanbuddy_cmd_plan.Booking.Availability.{
  Place, Offer, Row, Query, trip_not_found, answered, check_availability, Slot, get_available_slots,
}

-- A row and a slot tell the same of a day; a row names its day only if places are booked on it.
pub record Agrees (r : Row) (s : Slot) : Type 0 where
  pub same_booked : r.booked_on_date ≡ s.booked
  pub same_available : r.available_on_date ≡ s.available
  pub named : (r.travel_date ≡ some s.date) ⊎ ((r.travel_date ≡ none) × (s.booked ≡ 0))

abbrev pub AllAgree : List Row → List Slot → Type 0
AllAgree [] [] = Unit
AllAgree [] (s ∷ ss) = ⊥
AllAgree (r ∷ rs) [] = ⊥
AllAgree (r ∷ rs) (s ∷ ss) = Agrees r s × AllAgree rs ss

-- Without an id in the query string, the trip that the path names is never looked up.
pub path_id_unread :
    (order : List Row → List Row) (offers : List Offer) (places : List Place) (path_id : ℕ)
    (q : Query)
    → q.trip_id ≡ none
    → (check_availability order offers places path_id q ≡ trip_not_found)
      × (get_available_slots offers places path_id q ≡ answered [])
unfolding check_availability get_available_slots
path_id_unread order offers places path_id q h = rw h (refl, refl)
