-- ===== src/Api/Routes.antt =====
-- routes/index.js, routes/auth.js, routes/internal.js and the routes of app.js. A parameter of a path is
-- none.
use helloplanbuddy_cmd_plan.Base.{Option, none, some, List, [], ◌∷◌, ◌++◌}
use Prim.Native.String.{String}
use helloplanbuddy_cmd_plan.Base.Text.{Text, codes}

pub data Schema : Type 0 where
  login_schema register_schema refresh_token_schema logout_schema get_bookings_schema : Schema
  booking_id_schema cancel_booking_schema admin_bookings_schema create_order_schema : Schema
  verify_payment_schema payment_id_schema trip_id_schema : Schema

pub data Guard : Type 0 where
  authenticate require_admin idempotency_strict : Guard
  auth_limiter webhook_limiter metrics_ip_guard internal_ip_guard : Guard
  validate : Schema → Guard

pub data Handler : Type 0 where
  ping status root register login refresh_token logout get_current_user : Handler
  get_user_bookings get_booking cancel_booking get_all_bookings : Handler
  create_order verify_payment get_payment_status manual_reconcile razorpay_webhook : Handler
  check_availability get_available_slots : Handler
  live ready readiness detailed production check_integrity queue_metrics prometheus_metrics :
      Handler
  metrics : Handler

pub record Route : Type 0 where
  pub method : Text
  pub path : List (Option Text)
  pub guards : List Guard
  pub handler : Handler

abbrev pub get : List (Option Text) → List Guard → Handler → Route
get path guards handler = record {
  method = codes "GET";
  path = path;
  guards = guards;
  handler = handler;
}

abbrev pub post : List (Option Text) → List Guard → Handler → Route
post path guards handler = record {
  method = codes "POST";
  path = path;
  guards = guards;
  handler = handler;
}

abbrev pub lit : String → Option Text
lit s = some (codes s)

-- A path under the mount of the API.
abbrev pub under_api : List (Option Text) → List (Option Text)
under_api path = lit "api" ∷ lit "v1" ∷ path

abbrev pub under_internal : List (Option Text) → List (Option Text)
under_internal path = lit "internal" ∷ path

unfoldable pub auth_routes : List Route
auth_routes =
    post (under_api (lit "auth" ∷ lit "register" ∷ []))
      (auth_limiter ∷ validate register_schema ∷ []) register
    ∷ post (under_api (lit "auth" ∷ lit "login" ∷ [])) (auth_limiter ∷ validate login_schema ∷ [])
        login
    ∷ post (under_api (lit "auth" ∷ lit "refresh" ∷ []))
        (auth_limiter ∷ validate refresh_token_schema ∷ []) refresh_token
    ∷ post (under_api (lit "auth" ∷ lit "logout" ∷ [])) (validate logout_schema ∷ []) logout
    ∷ get (under_api (lit "auth" ∷ lit "me" ∷ [])) [] get_current_user
    ∷ []

unfoldable pub booking_routes : List Route
booking_routes =
    get (under_api (lit "bookings" ∷ [])) (authenticate ∷ validate get_bookings_schema ∷ [])
      get_user_bookings
    ∷ get (under_api (lit "bookings" ∷ none ∷ [])) (authenticate ∷ validate booking_id_schema ∷ [])
        get_booking
    ∷ post (under_api (lit "bookings" ∷ none ∷ lit "cancel" ∷ []))
        (authenticate
          ∷ validate booking_id_schema
          ∷ validate cancel_booking_schema
          ∷ idempotency_strict
          ∷ [])
        cancel_booking
    ∷ get (under_api (lit "admin" ∷ lit "bookings" ∷ []))
        (authenticate ∷ require_admin ∷ validate admin_bookings_schema ∷ []) get_all_bookings
    ∷ []

unfoldable pub payment_routes : List Route
payment_routes =
    post (under_api (lit "payment" ∷ lit "create-order" ∷ []))
      (authenticate ∷ validate create_order_schema ∷ idempotency_strict ∷ []) create_order
    ∷ post (under_api (lit "payment" ∷ lit "verify" ∷ []))
        (authenticate ∷ validate verify_payment_schema ∷ idempotency_strict ∷ []) verify_payment
    ∷ get (under_api (lit "payment" ∷ lit "status" ∷ none ∷ []))
        (authenticate ∷ validate payment_id_schema ∷ []) get_payment_status
    ∷ post (under_api (lit "admin" ∷ lit "payments" ∷ none ∷ lit "reconcile" ∷ []))
        (authenticate ∷ require_admin ∷ validate payment_id_schema ∷ idempotency_strict ∷ [])
        manual_reconcile
    ∷ post (under_api (lit "payment" ∷ lit "webhook" ∷ lit "razorpay" ∷ [])) (webhook_limiter ∷ [])
        razorpay_webhook
    ∷ []

unfoldable pub trip_routes : List Route
trip_routes =
    get (under_api (lit "trips" ∷ none ∷ lit "availability" ∷ [])) (validate trip_id_schema ∷ [])
      check_availability
    ∷ get (under_api (lit "trips" ∷ none ∷ lit "slots" ∷ [])) (validate trip_id_schema ∷ [])
        get_available_slots
    ∷ []

-- The router of routes/index.js.
unfoldable pub api_routes : List Route
unfolding auth_routes booking_routes payment_routes trip_routes
api_routes =
    get (under_api (lit "ping" ∷ [])) [] ping
    ∷ get (under_api (lit "status" ∷ [])) [] status
    ∷ (auth_routes ++ (booking_routes ++ (payment_routes ++ trip_routes)))

unfoldable pub internal_routes : List Route
internal_routes =
    get (under_internal (lit "health" ∷ lit "live" ∷ [])) [] live
    ∷ get (under_internal (lit "health" ∷ lit "ready" ∷ [])) [] ready
    ∷ get (under_internal (lit "health" ∷ lit "readiness" ∷ [])) [] readiness
    ∷ get (under_internal (lit "health" ∷ lit "detailed" ∷ [])) [] detailed
    ∷ get (under_internal (lit "health" ∷ lit "production" ∷ [])) [] production
    ∷ post (under_internal (lit "health" ∷ lit "check-integrity" ∷ [])) [] check_integrity
    ∷ get (under_internal (lit "metrics" ∷ lit "queues" ∷ [])) [] queue_metrics
    ∷ get (under_internal (lit "metrics" ∷ [])) [] prometheus_metrics
    ∷ []

-- The routes of app.js itself. Those at its end, but the root, repeat the ones of the health.
unfoldable pub app_routes : List Route
app_routes =
    get (lit "metrics" ∷ []) (metrics_ip_guard ∷ []) metrics
    ∷ get (lit "health" ∷ lit "live" ∷ []) [] live
    ∷ get (lit "health" ∷ lit "ready" ∷ []) [] ready
    ∷ get (lit "health" ∷ []) [] readiness
    ∷ get (lit "health" ∷ lit "production" ∷ []) [] production
    ∷ get [] [] root
    ∷ []
