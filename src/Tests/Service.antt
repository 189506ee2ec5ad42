-- ===== src/Tests/Service.antt =====
-- Runs of the shards, the regions, the durations, the limiters, the backpressure, the transactions and
-- the errors.
use helloplanbuddy_cmd_plan.Booking.Rows.{pending, unpaid}
use helloplanbuddy_cmd_plan.Payments.Orders.{ordered, Value, Row, Tables, Faults, request_order}
use helloplanbuddy_cmd_plan.Payments.Guards.{no_order_created}
use helloplanbuddy_cmd_plan.Base.{
  ℕ, ◌+◌, ◌*◌, ◌%◌, ◌≤◌, ◌<◌, ◌≡◌, refl, ◌≢◌, ◌↔◌, ◌⊎◌, inl, inr, true, false, Option, none, some,
  List, [], ◌∷◌, ◌++◌, arith, ◌==◌, if◌then◌else◌, Bool-cases,
}
use helloplanbuddy_cmd_plan.Base.Text.{codes}
use helloplanbuddy_cmd_plan.Queues.{webhook_events}
use helloplanbuddy_cmd_plan.Shards.{compute_worker_shards}
use helloplanbuddy_cmd_plan.Engine.Claim.{in_shards}
use helloplanbuddy_cmd_plan.Shards.Ownership.{shard_owner}
use helloplanbuddy_cmd_plan.Regions.{acquire_region_leader}
use helloplanbuddy_cmd_plan.Regions.Leases.{acquire_all, one_leader}
use helloplanbuddy_cmd_plan.Tokens.Durations.{TimeUnit, text, parse_duration_to_seconds}
use helloplanbuddy_cmd_plan.Tokens.Printing.{
  milliseconds, value_of, print_digits, print_unit, duration_round_trip,
}
use helloplanbuddy_cmd_plan.Backpressure.Tiers.{initial}
use helloplanbuddy_cmd_plan.Backpressure.Shedding.{
  Event, arrival, finish, close, handle_all, open_requests_bounded,
}
use helloplanbuddy_cmd_plan.Database.Transactions.{
  Code, Outcome, committed, failed, returned, Ended, run_from, run_transaction, delay,
}
use helloplanbuddy_cmd_plan.Database.Retrying.{EndsClean, transaction_ends, all_or_nothing}

shard_owner_example : (in_shards (compute_worker_shards 1 3 webhook_events) 7 ≡ true) ↔ (1 ≡ 7 % 3)
shard_owner_example = shard_owner webhook_events 3 1 7 (omega arith) (omega arith) (omega arith)

abbrev region : ℕ
region = 4

one_leader_example : region ≡ region
unfolding acquire_region_leader acquire_all
one_leader_example =
    one_leader region region 100 0 60 ((10, 5) ∷ []) none refl ((omega arith, omega arith), tt)
      (omega arith) (omega arith) refl

duration_round_trip_example :
    let r = parse_duration_to_seconds (text (print_digits (1 ∷ 5 ∷ []) ++ print_unit TimeUnit.m)) in
    let t = value_of 0 (1 ∷ 5 ∷ []) * milliseconds TimeUnit.m in
    (t ≤ r * 1000) × ((r * 1000 < t + 1000) ⊎ (r ≡ 1)) × (TimeUnit.m ≢ TimeUnit.ms → r * 1000 ≡ t)
unfolding value_of
duration_round_trip_example =
    duration_round_trip 1 (5 ∷ []) TimeUnit.m (omega arith, (omega arith, tt)) (omega arith)

abbrev events : List Event
events =
    arrival (codes "/api/payment/verify") 3 none
    ∷ arrival (codes "/api/trips") 200 none
    ∷ finish 2500 9
    ∷ close false
    ∷ []

open_requests_bounded_example : (handle_all events initial).active_requests ≤ 48
open_requests_bounded_example = open_requests_bounded events initial (omega arith)

-- A transaction that adds its number and conflicts in its first attempt.
abbrev conflict_once : ℕ → ℕ → ℕ × Outcome ℕ
conflict_once attempt d =
    if attempt == 1 then (d, failed Code.serialization_failure) else (d + attempt, committed 8)

-- Another transaction adds its number meanwhile.
abbrev meanwhile : ℕ → ℕ → ℕ
meanwhile attempt d = d + attempt

transaction_ends_example :
    (e : Ended ℕ ℕ) × ((run_transaction conflict_once meanwhile 3 0 ≡ some e)
      × ((e.attempts ≤ 3) × (e.waited ≤ 150)))
transaction_ends_example = transaction_ends conflict_once meanwhile 0 0

abbrev ended : Ended ℕ ℕ
ended = record { state = 3; result = returned 8; attempts = 2; waited = 50 }

conflict_once_rolls_back :
    (attempt d : ℕ)
    → ((a : ℕ) → (conflict_once attempt d).1 ≢ committed a)
    → (conflict_once attempt d).0 ≡ d
conflict_once_rolls_back attempt d h = elim (Bool-cases (attempt == 1)) [
  | inl first ↦ rw first refl
  | inr more ↦ absurd (h 8 (rw more refl))
]

all_or_nothing_example : EndsClean conflict_once meanwhile 0 ended
unfolding run_transaction run_from delay
all_or_nothing_example =
    all_or_nothing conflict_once meanwhile conflict_once_rolls_back 3 0 ended refl

abbrev row : Row
row = record {
  id = 3;
  user_id = 5;
  total_amount = Value.text (codes "200.00");
  currency = none;
  status = pending;
  payment_status = unpaid;
  group_size = 2;
  price = Value.text (codes "100.00");
  is_active = true;
}

abbrev bookings : Tables
bookings = record { rows = row ∷ []; mappings = []; payments = [] }

abbrev times : Value → ℕ → ℕ
times (Value.number n) k = n * k
times (Value.text t) k = 0

abbrev paise : Value → ℕ
paise (Value.number n) = n * 100
paise (Value.text t) = 0

abbrev create : ℕ → Option ℕ → ℕ → ℕ × Option ℕ
create amount currency n = (n + 1, some n)

abbrev well : Faults
well = record { tx_fails = false; audit_fails = false }

no_order_created_example :
    let r = request_order times paise create well true (some 3) 5 (bookings, 70) in
    (r.0 ≡ (bookings, 70)) × ((order amount : ℕ) → r.1 ≢ ordered order amount)
no_order_created_example =
    no_order_created times paise create well true (some 3) 5 bookings 70
      ((codes "200.00", refl), tt)
