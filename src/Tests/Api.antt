-- ===== src/Tests/Api.antt =====
-- Runs of the pipeline of requests, of the proxies' guard and of the server's start and shutdown.
use helloplanbuddy_cmd_plan.Base.{
  ℕ, ◌+◌, ◌-◌, ◌/◌, ◌^◌, ◌≤◌, ◌≡◌, refl, ◌≢◌, ◌↔◌, Bool, true, false, none, some, List, [], ◌∷◌,
  if◌then◌else◌,
}
use helloplanbuddy_cmd_plan.Base.Text.{Text, text_eq, codes, starts_with, any_text}
use helloplanbuddy_cmd_plan.Errors.Handler.{csrf_protection}
use helloplanbuddy_cmd_plan.Proxies.{
  normalize_ip, ip_to_number, read_number, read_digits, is_digit, or_bits, parse_prefix,
  before_slash, after_slash, cidr_contains, Forwarded, validate_proxy,
}
use helloplanbuddy_cmd_plan.Proxies.Ranges.{cidr_contains_iff}
use helloplanbuddy_cmd_plan.Api.{
  Request, handled, Verdicts, respond, route, find_route, path_matches, run_guards,
}
use helloplanbuddy_cmd_plan.Api.Routes.{
  Guard, authenticate, idempotency_strict, create_order, razorpay_webhook, app_routes, api_routes,
  auth_routes, booking_routes, payment_routes, trip_routes,
}
use helloplanbuddy_cmd_plan.Api.Guarded.{
  is_financial, is_for_admins, handlers_guarded, webhooks_refused,
}
use helloplanbuddy_cmd_plan.Server.Startup.{
  resolves, rejects, hangs, IsAnswered, IsAnsweredIfAny, Dependencies, listening, start,
  listens_exactly,
}
use helloplanbuddy_cmd_plan.Server.Shutdown.{
  Closing, run_phases, Process, sigterm, sigint, handle, handle_all,
}
use helloplanbuddy_cmd_plan.Server.Ending.{shutdown_ends}

abbrev idle : Process
idle = record { shutdown = none; exit = none }

abbrev stuck : Closing
stuck = record {
  server_closed = none;
  bcrypt_queue = none;
  queues = some hangs;
  rate_limit_redis = some hangs;
  cache_redis = some (resolves 5);
  queue_redis = some (resolves 5);
  database = some (rejects 20);
}

shutdown_ends_example :
    let q = handle_all stuck ((sigterm, 2000) ∷ []) (handle stuck sigint 1000 idle) in
    (q.shutdown ≡ some (run_phases stuck 1000))
    × ((x : ℕ × ℕ) × (q.exit ≡ some x) × (x.0 ≤ 1000 + 80000))
shutdown_ends_example = shutdown_ends stuck sigint 1000 ((sigterm, 2000) ∷ []) idle refl refl

abbrev slow_redis : Dependencies
slow_redis = record {
  database = resolves 40;
  redis = some (resolves 6000);
  rate_limit_redis = resolves 3;
}

listens_exactly_example :
    let r = start 5000 false slow_redis true in
    ((r.0 ≡ listening) ↔ (
      (◌≢◌ {A = ℕ} 5000 0)
      × IsAnswered slow_redis.database
      × (false ≡ true → IsAnsweredIfAny slow_redis.redis × IsAnswered slow_redis.rate_limit_redis)
      × (◌≡◌ {A = Bool} true true)))
    × (r.1 ≤ 15000)
listens_exactly_example = listens_exactly 5000 false slow_redis true

-- `net.isIP` for the addresses of the example.
abbrev is_ip : Text → ℕ
is_ip t = if text_eq t (codes "") then 0 else 4

abbrev client : Text
client = codes "::ffff:10.1.2.3"

abbrev block : Text
block = codes "10.1.0.0/16"

cidr_contains_iff_example :
    (cidr_contains is_ip client block ≡ true)
    ↔ (◌≡◌ {A = ℕ} (167838211 / 2 ^ (32 - 16)) (167837696 / 2 ^ (32 - 16)))
unfolding normalize_ip before_slash after_slash parse_prefix ip_to_number read_number read_digits
    is_digit or_bits starts_with text_eq
cidr_contains_iff_example =
    cidr_contains_iff is_ip client block (codes "16") 167838211 167837696 16 refl refl (λ e. cc)
      (λ e. cc) refl refl refl refl

abbrev direct : Forwarded
direct = record { for = []; proto = codes "https"; host = [] }

abbrev open_gates : Verdicts
open_gates = record {
  trusted_source = true;
  secure = λ h. text_eq h.proto (codes "https");
  ends_preflight = false;
  body_parses = true;
  within_limit = true;
  has_capacity = true;
  passes = λ g. true;
}

abbrev order : Request
order = record {
  method = codes "POST";
  path = codes "api" ∷ codes "v1" ∷ codes "payment" ∷ codes "create-order" ∷ [];
  origin = some (codes "https://planbuddy.example");
  x_requested_with = some (codes "XMLHttpRequest");
  forwarded = direct;
}

abbrev origins : List Text
origins = codes "https://planbuddy.example" ∷ []

handlers_guarded_example :
    (csrf_protection true order.method order.x_requested_with ≡ true)
    × (any_text (text_eq (codes "https://planbuddy.example")) origins ≡ true)
    × (is_financial create_order ≡ true
        → (text_eq (codes "POST") order.method ≡ true)
          × (open_gates.passes authenticate ≡ true)
          × (open_gates.passes idempotency_strict ≡ true))
    × (is_for_admins create_order ≡ true
        → (open_gates.passes authenticate ≡ true) × (open_gates.passes Guard.require_admin ≡ true))
unfolding respond validate_proxy csrf_protection text_eq any_text route find_route path_matches
    run_guards app_routes api_routes auth_routes booking_routes payment_routes trip_routes
handlers_guarded_example = handlers_guarded true origins open_gates order create_order refl

abbrev delivery : Request
delivery = record order {
  path = codes "api" ∷ codes "v1" ∷ codes "payment" ∷ codes "webhook" ∷ codes "razorpay" ∷ [];
  origin = none;
  x_requested_with = none;
}

webhooks_refused_example : respond true origins open_gates delivery ≢ handled razorpay_webhook
webhooks_refused_example = webhooks_refused origins open_gates delivery refl refl
