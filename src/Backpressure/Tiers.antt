-- ===== src/Backpressure/Tiers.antt =====
-- planbuddy_v9/middleware/backpressure.js: load shedding by priority. The load is the number of open
-- requests over 50, and its thresholds are compared as fractions. Times and lag are in milliseconds.
use helloplanbuddy_cmd_plan.Base.{
  ℕ, ◌+◌, ◌-◌, ◌*◌, Bool, true, false, ◌&&◌, ◌||◌, Option, none, some, List, [], ◌∷◌, ltb, leb,
  if◌then◌else◌,
}
use helloplanbuddy_cmd_plan.Base.Text.{Text, codes, starts_with, any_text}

abbrev pub max_concurrent_requests : ℕ
max_concurrent_requests = 50

abbrev pub slow_response_threshold : ℕ
slow_response_threshold = 2000

abbrev pub event_loop_lag_threshold : ℕ
event_loop_lag_threshold = 100

pub data Tier : Type 0 where
  high medium low : Tier

abbrev pub high_prefixes : List Text
high_prefixes =
    codes "/api/v1/payment"
    ∷ codes "/api/payment"
    ∷ codes "/api/v1/booking"
    ∷ codes "/api/booking"
    ∷ []

abbrev pub medium_prefixes : List Text
medium_prefixes = codes "/api/v1/auth" ∷ codes "/api/auth" ∷ []

abbrev pub low_prefixes : List Text
low_prefixes =
    codes "/api/v1/trips" ∷ codes "/api/trips" ∷ codes "/api/v1/search" ∷ codes "/api/search" ∷ []

abbrev pub has_prefix : Text → List Text → Bool
has_prefix path = any_text (λ p. starts_with p path)

-- `getPriorityTier`
unfoldable pub get_priority_tier : Text → Tier
get_priority_tier path =
    if has_prefix path high_prefixes
    then high
    else (if has_prefix path medium_prefixes
        then medium
        else (if has_prefix path low_prefixes then low else medium))

-- `shouldBypassBackpressure`
unfoldable pub should_bypass_backpressure : Text → Bool
should_bypass_backpressure path =
    has_prefix path (codes "/health" ∷ codes "/metrics" ∷ codes "/internal" ∷ [])

-- The module's variables.
pub record State : Type 0 where
  pub active_requests : ℕ
  pub total_requests : ℕ
  pub rejected_requests : ℕ
  pub slow_responses : ℕ
  pub last_slow_at : Option ℕ
  pub event_loop_lag : ℕ

abbrev pub initial : State
initial = record {
  active_requests = 0;
  total_requests = 0;
  rejected_requests = 0;
  slow_responses = 0;
  last_slow_at = none;
  event_loop_lag = 0;
}

-- The pool's counts, or none if reading them throws.
pub record Pool : Type 0 where
  pub total : ℕ
  pub idle : ℕ

abbrev pub used : Pool → ℕ
used p = p.total - p.idle

-- `getDbPoolHealth`: `isWarning` and `isCritical`.
abbrev pub pool_warning : Option Pool → Bool
pool_warning none = false
pool_warning (some p) = ltb 0 p.total && leb (70 * p.total) (100 * used p)

abbrev pub pool_critical : Option Pool → Bool
pool_critical none = true
pool_critical (some p) = ltb 0 p.total && leb (85 * p.total) (100 * used p)

-- `load >= percent / 100`
abbrev pub load_at_least : ℕ → ℕ → Bool
load_at_least percent active = leb (percent * max_concurrent_requests) (100 * active)

pub data Reason : Type 0 where
  load_high load_critical db_critical event_loop_slow extreme_overload : Reason

-- Why a request is rejected, given the number of open requests with its own, or none.
unfoldable pub reject_reason : Tier → ℕ → Bool → ℕ → Option Reason
reject_reason low active critical lag =
    if load_at_least 70 active
    then some load_high
    else (if critical
        then some db_critical
        else (if ltb event_loop_lag_threshold lag then some event_loop_slow else none))
reject_reason medium active critical lag =
    if load_at_least 90 active
    then some load_critical
    else (if critical then some db_critical else none)
reject_reason high active critical lag =
    if load_at_least 98 active || critical then some extreme_overload else none

pub data Outcome : Type 0 where
  bypassed admitted : Outcome
  rejected : Reason → Outcome

abbrev pub decided : State → Option Reason → State × Outcome
decided s none = (s, admitted)
decided s (some reason) = (
  record s { rejected_requests = s.rejected_requests + 1; active_requests = s.active_requests - 1 },
  rejected reason,
)

-- `backpressureMiddleware` up to `next()`, with the lag measured and the pool as it is then.
unfoldable pub receive : Text → ℕ → Option Pool → State → State × Outcome
receive path lag pool s =
    if should_bypass_backpressure path
    then (s, bypassed)
    else (let t = record s {
      event_loop_lag = lag;
      active_requests = s.active_requests + 1;
      total_requests = s.total_requests + 1;
    } in
        decided t
          (reject_reason (get_priority_tier path) t.active_requests (pool_critical pool) lag))

-- The handler of `finish`, of a request that took `duration`.
unfoldable pub on_finish : ℕ → ℕ → State → State
on_finish duration now s =
    let slow = ltb slow_response_threshold duration in
    record s {
      active_requests = s.active_requests - 1;
      slow_responses = if slow then s.slow_responses + 1 else s.slow_responses;
      last_slow_at = if slow then some now else s.last_slow_at;
    }

-- The handler of `close`.
unfoldable pub on_close : Bool → State → State
on_close writable_ended s =
    if writable_ended then s else record s { active_requests = s.active_requests - 1 }

-- `getBackpressureStatus`: `isOverloaded` and `isWarning`.
abbrev pub is_overloaded : State → Bool
is_overloaded s = load_at_least 90 s.active_requests

abbrev pub is_warning : State → Bool
is_warning s = load_at_least 70 s.active_requests
