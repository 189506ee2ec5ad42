-- ===== src/Backpressure/Counters.antt =====
-- middleware/backpressure.js: the limits on requests and on the database's connections. Times are
-- in milliseconds. Requests run on one thread, so a middleware's code up to its end is one step.
use helloplanbuddy_cmd_plan.Base.{
  ℕ, ◌+◌, ◌-◌, ◌*◌, Bool, true, false, ◌||◌, Option, none, some, ltb, leb, if◌then◌else◌,
}
use helloplanbuddy_cmd_plan.Base.Text.{Text, text_eq, codes, starts_with}

abbrev pub max_concurrent_global : ℕ
max_concurrent_global = 200

abbrev pub max_concurrent_booking : ℕ
max_concurrent_booking = 50

abbrev pub max_db_connections : ℕ
max_db_connections = 50

abbrev pub db_health_ttl_ms : ℕ
db_health_ttl_ms = 5000

pub record Health : Type 0 where
  pub is_db_overloaded : Bool
  pub checked_at : ℕ

-- The module's variables; `in_flight` is a refresh that has started.
pub record State : Type 0 where
  pub active_requests : ℕ
  pub booking_active_requests : ℕ
  pub health_cache : Option Health
  pub in_flight : Bool

abbrev pub initial : State
initial = record {
  active_requests = 0;
  booking_active_requests = 0;
  health_cache = none;
  in_flight = false;
}

-- The counts of the pool, if there is one and it can be read.
pub record Pool : Type 0 where
  pub total_count : ℕ
  pub idle_count : ℕ

-- `fetchDbPoolHealth`: `used - idle >= 50 * 0.9`
unfoldable pub fetch_db_pool_health : Option Pool → Bool
fetch_db_pool_health none = false
fetch_db_pool_health (some p) = leb (9 * max_db_connections) (10 * (p.total_count - p.idle_count))

-- `refreshDbHealthCache`, up to its promise, and what the promise does at the end.
unfoldable pub refresh_db_health_cache : State → State
refresh_db_health_cache s = if s.in_flight then s else record s { in_flight = true }

unfoldable pub finish_refresh : Option Pool → ℕ → State → State
finish_refresh pool now s =
    if s.in_flight
    then record s {
      health_cache =
          some (record { is_db_overloaded = fetch_db_pool_health pool; checked_at = now });
      in_flight = false;
    }
    else s

abbrev pub cached_overload : ℕ → Option Health → State → State × Bool
cached_overload now none s = (refresh_db_health_cache s, false)
cached_overload now (some h) s = (
  (if ltb db_health_ttl_ms (now - h.checked_at) then refresh_db_health_cache s else s),
  h.is_db_overloaded,
)

-- `isDbOverloadedCached`
unfoldable pub is_db_overloaded_cached : ℕ → State → State × Bool
is_db_overloaded_cached now s = cached_overload now s.health_cache s

-- `isOverloaded`
unfoldable pub is_overloaded : ℕ → State → State × Bool
is_overloaded now s =
    if leb max_concurrent_global s.active_requests then (s, true) else is_db_overloaded_cached now s

pub data Outcome : Type 0 where
  passed_on service_overloaded booking_overloaded : Outcome

-- The paths that are never shed.
unfoldable pub is_probe : Text → Bool
is_probe path =
    starts_with (codes "/api/health") path
    || (text_eq path (codes "/health")
        || (text_eq path (codes "/metrics") || starts_with (codes "/internal") path))

abbrev pub leave : State → State
leave s = record s { active_requests = s.active_requests - 1 }

abbrev pub leave_booking : State → State
leave_booking s = record s { booking_active_requests = s.booking_active_requests - 1 }

-- `backpressureMiddleware`; `next` is what `next()` does before it returns, at the first wait of the
-- handlers behind it.
unfoldable pub backpressure_middleware : (State → State) → Text → ℕ → State → State × Outcome
backpressure_middleware next path now s =
    if is_probe path
    then (next s, passed_on)
    else (let t = record s { active_requests = s.active_requests + 1 } in
        let o = is_overloaded now t in
        if o.1 then (leave o.0, service_overloaded) else (leave (next o.0), passed_on))

-- `bookingBackpressureMiddleware`
unfoldable pub booking_backpressure_middleware : (State → State) → State → State × Outcome
booking_backpressure_middleware next s =
    let t = record s { booking_active_requests = s.booking_active_requests + 1 } in
    if ltb max_concurrent_booking t.booking_active_requests
    then (leave_booking t, booking_overloaded)
    else (leave_booking (next t), passed_on)

-- `getBackpressureStatus`: the free slots.
abbrev pub available_global_slots : State → ℕ
available_global_slots s = max_concurrent_global - s.active_requests

abbrev pub available_booking_slots : State → ℕ
available_booking_slots s = max_concurrent_booking - s.booking_active_requests
