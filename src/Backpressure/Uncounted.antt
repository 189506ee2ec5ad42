-- ===== src/Backpressure/Uncounted.antt =====
-- What the limits on requests come to.
use helloplanbuddy_cmd_plan.Base.{
  ℕ, ◌+◌, ◌≡◌, refl, ◌↔◌, Bool, true, false, Option, none, some, List, [], ◌∷◌, arith,
}
use helloplanbuddy_cmd_plan.Base.Text.{Text}
use helloplanbuddy_cmd_plan.Backpressure.Counters.{
  Health, State, initial, Pool, refresh_db_health_cache, finish_refresh, cached_overload,
  is_db_overloaded_cached, is_overloaded, passed_on, service_overloaded, is_probe,
  backpressure_middleware, booking_backpressure_middleware,
}

-- What the process does in turn: a request arrives, or a booking, whose handlers run to their first
-- wait and leave these variables alone, or a refresh ends.
pub data Event : Type 0 where
  arrival : Text → ℕ → Event
  booking : Text → ℕ → Event
  refreshed : Option Pool → ℕ → Event

abbrev pub stay : State → State
stay s = s

-- A booking goes through both middlewares.
unfoldable pub handle : Event → State → State
handle (arrival path now) s = (backpressure_middleware stay path now s).0
handle (booking path now) s =
    (backpressure_middleware (λ t. (booking_backpressure_middleware stay t).0) path now s).0
handle (refreshed pool now) s = finish_refresh pool now s

unfoldable pub handle_all : List Event → State → State
handle_all [] s = s
handle_all (e ∷ es) s = handle_all es (handle e s)

abbrev pub SameCounts : State → State → Type 0
SameCounts s t =
    (t.active_requests ≡ s.active_requests)
    × (t.booking_active_requests ≡ s.booking_active_requests)

refresh_db_health_cache-SameCounts : (s : State) → SameCounts s (refresh_db_health_cache s)
unfolding refresh_db_health_cache
refresh_db_health_cache-SameCounts s = ground arith

cached_overload-SameCounts :
    (now : ℕ) (c : Option Health) (s : State) → SameCounts s (cached_overload now c s).0
cached_overload-SameCounts now none s = refresh_db_health_cache-SameCounts s
cached_overload-SameCounts now (some h) s = ground (arith, refresh_db_health_cache-SameCounts s)

is_overloaded-SameCounts : (now : ℕ) (s : State) → SameCounts s (is_overloaded now s).0
unfolding is_overloaded is_db_overloaded_cached
is_overloaded-SameCounts now s = ground (arith, cached_overload-SameCounts now s.health_cache s)

booking_backpressure_middleware-SameCounts :
    (s : State) → SameCounts s (booking_backpressure_middleware stay s).0
unfolding booking_backpressure_middleware
booking_backpressure_middleware-SameCounts s = ground arith

backpressure_middleware-SameCounts :
    (next : State → State) (path : Text) (now : ℕ) (s : State)
    → ((t : State) → SameCounts t (next t))
    → SameCounts s (backpressure_middleware next path now s).0
unfolding backpressure_middleware
backpressure_middleware-SameCounts next path now s keeps =
    let t : State = record s { active_requests = s.active_requests + 1 } in
    ground (arith, keeps s, keeps (is_overloaded now t).0, is_overloaded-SameCounts now t)

handle_keeps : (e : Event) (s : State) → SameCounts s (handle e s)
unfolding handle finish_refresh
handle_keeps (arrival path now) s =
    backpressure_middleware-SameCounts stay path now s (λ t. (refl, refl))
handle_keeps (booking path now) s =
    backpressure_middleware-SameCounts (λ t. (booking_backpressure_middleware stay t).0) path now s
      booking_backpressure_middleware-SameCounts
handle_keeps (refreshed pool now) s = ground arith

handle_all_keeps : (es : List Event) (s : State) → SameCounts s (handle_all es s)
unfolding handle_all
handle_all_keeps [] s = (refl, refl)
handle_all_keeps (e ∷ es) s = ground (arith, handle_keeps e s, handle_all_keeps es (handle e s))

-- What the cached health says of the database.
abbrev pub said_overloaded : Option Health → Bool
said_overloaded none = false
said_overloaded (some h) = h.is_db_overloaded

cached_answer :
    (now : ℕ) (c : Option Health) (s : State) → (cached_overload now c s).1 ≡ said_overloaded c
cached_answer now none s = refl
cached_answer now (some h) s = refl

idle_answer :
    (path : Text) (now : ℕ) (s : State)
    → s.active_requests ≡ 0
    → (backpressure_middleware stay path now s).1 ≡ service_overloaded
      ↔ (is_probe path ≡ false) × (said_overloaded s.health_cache ≡ true)
unfolding backpressure_middleware is_overloaded is_db_overloaded_cached
idle_answer path now s h =
    let t : State = record s { active_requests = s.active_requests + 1 } in
    ground (arith, h, cached_answer now s.health_cache t)

-- Whatever arrived and however many requests are still being handled, a request is refused exactly
-- when it is not a probe's and the cached health says that the database is overloaded, and a booking
-- is never refused for the number of bookings: nothing is counted once a middleware has returned.
pub concurrency_uncounted :
    (es : List Event) (path : Text) (now : ℕ)
    → ((backpressure_middleware stay path now (handle_all es initial)).1 ≡ service_overloaded
        ↔ (is_probe path ≡ false) × (said_overloaded (handle_all es initial).health_cache ≡ true))
      × ((booking_backpressure_middleware stay (handle_all es initial)).1 ≡ passed_on)
unfolding booking_backpressure_middleware
concurrency_uncounted es path now =
    let kept = handle_all_keeps es initial in
    (idle_answer path now (handle_all es initial) kept.0, ground (arith, kept))
