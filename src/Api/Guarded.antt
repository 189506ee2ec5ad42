-- ===== src/Api/Guarded.antt =====
-- Which requests reach the handlers.
use helloplanbuddy_cmd_plan.Base.{
  ◌≡◌, refl, sym, ◌∙◌, ◌≢◌, inl, inr, Bool, true, false, not, ◌&&◌, ◌||◌, none, some, List, [], ◌∷◌,
  arith, if◌then◌else◌, Bool-cases, Option-cases,
}
use helloplanbuddy_cmd_plan.Base.Text.{Text, text_eq, text_eq→eq, codes}
use helloplanbuddy_cmd_plan.Errors.Handler.{csrf_protection}
use helloplanbuddy_cmd_plan.Api.Routes.{
  Guard, Handler, Route, api_routes, internal_routes, app_routes, internal_ip_guard, authenticate,
  require_admin, idempotency_strict, cancel_booking, create_order, verify_payment, manual_reconcile,
  razorpay_webhook, auth_routes, booking_routes, payment_routes, trip_routes, auth_limiter,
  webhook_limiter, metrics_ip_guard, validate,
}
use helloplanbuddy_cmd_plan.Api.{
  Request, Answer, handled, refused_by, csrf_failed, not_found, redirected, cors_failed, preflight,
  body_refused, rate_limited, overloaded, Verdicts, run_guards, find_route, or_else, internal,
  is_internal, route, respond, path_matches, method_matches, origin_allowed,
}

-- The handlers that change payments or bookings for a user, and the one for administrators.
abbrev pub is_financial : Handler → Bool
is_financial cancel_booking = true
is_financial create_order = true
is_financial verify_payment = true
is_financial manual_reconcile = true
is_financial other = false

abbrev pub is_for_admins : Handler → Bool
is_for_admins manual_reconcile = true
is_for_admins Handler.get_all_bookings = true
is_for_admins other = false

abbrev is_authenticate : Guard → Bool
is_authenticate authenticate = true
is_authenticate other = false

abbrev is_strict : Guard → Bool
is_strict idempotency_strict = true
is_strict other = false

abbrev is_admin_guard : Guard → Bool
is_admin_guard require_admin = true
is_admin_guard other = false

any_guard : (Guard → Bool) → List Guard → Bool
any_guard test [] = false
any_guard test (g ∷ gs) = test g || any_guard test gs

implies : Bool → Bool → Bool
implies a b = not a || b

-- What holds of every route.
is_covered : Route → Bool
is_covered r =
    implies (is_financial r.handler) (
      text_eq r.method (codes "POST")
      && (any_guard is_authenticate r.guards && any_guard is_strict r.guards))
    && implies (is_for_admins r.handler)
        (any_guard is_authenticate r.guards && any_guard is_admin_guard r.guards)

all_covered : List Route → Bool
all_covered [] = true
all_covered (r ∷ rs) = is_covered r && all_covered rs

app_covered : all_covered app_routes ≡ true
unfolding all_covered is_covered implies any_guard app_routes text_eq
app_covered = refl

internal_covered : all_covered internal_routes ≡ true
unfolding all_covered is_covered implies any_guard internal_routes text_eq
internal_covered = refl

api_covered : all_covered api_routes ≡ true
unfolding all_covered is_covered implies any_guard api_routes auth_routes booking_routes
    payment_routes trip_routes text_eq
api_covered = refl

found_covered :
    (rs : List Route) (method : Text) (path : List Text) (r : Route)
    → all_covered rs ≡ true
    → find_route rs method path ≡ some r
    → (is_covered r ≡ true) × (method_matches r.method method ≡ true)
unfolding all_covered find_route
found_covered [] method path r h f = absurd (ground arith)
found_covered (s ∷ rs) method path r h f =
    elim (Bool-cases (method_matches s.method method && path_matches s.path path)) [
      | inl e ↦
          let hit : some s ≡ some r = rw e at f in
          let same : s ≡ r = cc in rw (sym same) (ground (arith, h), ground (arith, e))
      | inr e ↦ found_covered rs method path r (ground (arith, h)) (rw e at f)
    ]

-- A guard of a route whose handler is reached lets the request pass.
guard_passed :
    (passes : Guard → Bool) (test : Guard → Bool) (target : Guard)
    → ((g : Guard) → test g ≡ true → g ≡ target)
    → (gs : List Guard) (h k : Handler) → run_guards passes gs h ≡ handled k
    → any_guard test gs ≡ true
    → passes target ≡ true
unfolding run_guards any_guard
guard_passed passes test target only [] h k r a = cc
guard_passed passes test target only (g ∷ gs) h k r a = elim (Bool-cases (passes g)) [
  | inl e ↦ elim (Bool-cases (test g)) [
    | inl t ↦ rw (sym (only g t)) e
    | inr t ↦ guard_passed passes test target only gs h k (rw e at r) (rw t at a)
  ]
  | inr e ↦ let f : refused_by g ≡ handled k = rw e at r in cc
]

same_handler :
    (passes : Guard → Bool) (gs : List Guard) (h k : Handler)
    → run_guards passes gs h ≡ handled k
    → h ≡ k
unfolding run_guards
same_handler passes [] h k r = cc
same_handler passes (g ∷ gs) h k r = elim (Bool-cases (passes g)) [
  | inl e ↦ same_handler passes gs h k (rw e at r)
  | inr e ↦ let f : refused_by g ≡ handled k = rw e at r in cc
]

only_authenticate : (g : Guard) → is_authenticate g ≡ true → g ≡ authenticate
only_authenticate authenticate h = refl
only_authenticate require_admin h = cc
only_authenticate idempotency_strict h = cc
only_authenticate auth_limiter h = cc
only_authenticate webhook_limiter h = cc
only_authenticate metrics_ip_guard h = cc
only_authenticate internal_ip_guard h = cc
only_authenticate (validate s) h = cc

only_strict : (g : Guard) → is_strict g ≡ true → g ≡ idempotency_strict
only_strict authenticate h = cc
only_strict require_admin h = cc
only_strict idempotency_strict h = refl
only_strict auth_limiter h = cc
only_strict webhook_limiter h = cc
only_strict metrics_ip_guard h = cc
only_strict internal_ip_guard h = cc
only_strict (validate s) h = cc

only_admin : (g : Guard) → is_admin_guard g ≡ true → g ≡ require_admin
only_admin authenticate h = cc
only_admin require_admin h = refl
only_admin idempotency_strict h = cc
only_admin auth_limiter h = cc
only_admin webhook_limiter h = cc
only_admin metrics_ip_guard h = cc
only_admin internal_ip_guard h = cc
only_admin (validate s) h = cc

-- What a request that reaches a handler has passed.
abbrev Passed : (Guard → Bool) → Text → Handler → Type 0
Passed passes method h =
    (is_financial h ≡ true
      → (text_eq (codes "POST") method ≡ true)
        × (passes authenticate ≡ true)
        × (passes idempotency_strict ≡ true))
    × (is_for_admins h ≡ true → (passes authenticate ≡ true) × (passes require_admin ≡ true))

post_only :
    (wanted method : Text)
    → text_eq wanted (codes "POST") ≡ true
    → method_matches wanted method ≡ true
    → text_eq (codes "POST") method ≡ true
unfolding text_eq
post_only wanted method p m =
    let e : wanted ≡ codes "POST" = text_eq→eq wanted (codes "POST") p in
    let n = rw e at m in ground (arith, n)

implied : (a b : Bool) → implies a b ≡ true → a ≡ true → b ≡ true
unfolding implies
implied a b h k = ground (arith, h, k)

and_parts : (a b : Bool) → a && b ≡ true → (a ≡ true) × (b ≡ true)
and_parts a b h = (ground (arith, h), ground (arith, h))

covered_passes :
    (passes : Guard → Bool) (r : Route) (method : Text) (h : Handler)
    → is_covered r ≡ true
    → method_matches r.method method ≡ true
    → run_guards passes r.guards r.handler ≡ handled h
    → Passed passes method h
unfolding is_covered
covered_passes passes r method h c m run =
    let same : r.handler ≡ h = same_handler passes r.guards r.handler h run in
    let both = and_parts _ _ c in
    let auth = λ (a : any_guard is_authenticate r.guards ≡ true).
      guard_passed passes is_authenticate authenticate only_authenticate r.guards r.handler h run
        a in
    (
      λ f.
          let k = and_parts _ _ (implied (is_financial r.handler) _ both.0 (rw same f)) in
          let gs = and_parts _ _ k.1 in
          (
            post_only r.method method k.0 m,
            auth gs.0,
            guard_passed passes is_strict idempotency_strict only_strict r.guards r.handler h run
                gs.1,
          ),
      λ f.
          let gs = and_parts _ _ (implied (is_for_admins r.handler) _ both.1 (rw same f)) in
          (
            auth gs.0,
            guard_passed passes is_admin_guard require_admin only_admin r.guards r.handler h run
                gs.1,
          ),
    )

-- An answer is of a route, or it is no handler's.
routed :
    (passes : Guard → Bool) (rs : List Route) (otherwise : Answer) (q : Request) (h : Handler)
    → all_covered rs ≡ true
    → (otherwise ≡ handled h → Passed passes q.method h)
    → or_else otherwise passes (find_route rs q.method q.path) ≡ handled h
    → Passed passes q.method h
routed passes rs otherwise q h c other run = elim (Option-cases (find_route rs q.method q.path)) [
  | inl e ↦ other (rw e at run)
  | inr (r, e) ↦
      let f = found_covered rs q.method q.path r c e in
      covered_passes passes r q.method h f.0 f.1 (rw e at run)
]

internal-Passed :
    (passes : Guard → Bool) (q : Request) (h : Handler)
    → internal q passes ≡ handled h
    → Passed passes q.method h
internal-Passed passes q h run = elim (Bool-cases (passes internal_ip_guard)) [
  | inl e ↦
      routed passes internal_routes not_found q h internal_covered (λ e. absurd (ground (arith, e)))
        (rw e at run)
  | inr e ↦
      let e : refused_by internal_ip_guard ≡ handled h = rw e at run in absurd (ground (arith, e))
]

behind-Passed :
    (passes : Guard → Bool) (q : Request) (h : Handler)
    → (if is_internal q.path then internal q passes else not_found) ≡ handled h
    → Passed passes q.method h
behind-Passed passes q h run = elim (Bool-cases (is_internal q.path)) [
  | inl e ↦ internal-Passed passes q h (rw e at run)
  | inr e ↦ let e : not_found ≡ handled h = rw e at run in absurd (ground (arith, e))
]

route-Passed :
    (passes : Guard → Bool) (q : Request) (h : Handler)
    → route q passes ≡ handled h
    → Passed passes q.method h
unfolding route
route-Passed passes q h run =
    routed passes app_routes _ q h app_covered
      (routed passes api_routes _ q h api_covered (behind-Passed passes q h)) run

abbrev is_handled : Answer → Bool
is_handled (handled h) = true
is_handled other = false

handled_true : (a : Answer) (h : Handler) → a ≡ handled h → is_handled a ≡ true
handled_true a h e = rw e refl

-- An early answer that is no handler's was not given.
past :
    (b : Bool) (early rest : Answer) (h : Handler)
    → is_handled early ≡ false
    → (if b then early else rest) ≡ handled h
    → (b ≡ false) × (rest ≡ handled h)
past true early rest h differs run =
    let e : true ≡ false = sym (handled_true early h run) ∙ differs in cc
past false early rest h differs run = (refl, run)

true_of_not : (b : Bool) → not b ≡ false → b ≡ true
true_of_not true h = refl
true_of_not false h = cc

reached :
    (is_prod : Bool) (origins : List Text) (v : Verdicts) (q : Request) (h : Handler)
    → respond is_prod origins v q ≡ handled h
    → (csrf_protection is_prod q.method q.x_requested_with ≡ true)
      × (origin_allowed origins q.origin ≡ true)
      × (route q v.passes ≡ handled h)
unfolding respond
reached is_prod origins v q h run =
    let r1 = past _ redirected _ h refl run in
    let r2 = past _ cors_failed _ h refl r1.1 in
    let r3 = past _ preflight _ h refl r2.1 in
    let r4 = past _ csrf_failed _ h refl r3.1 in
    let r5 = past _ body_refused _ h refl r4.1 in
    let r6 = past _ rate_limited _ h refl r5.1 in
    let r7 = past _ overloaded _ h refl r6.1 in (true_of_not _ r4.0, true_of_not _ r2.0, r7.1)

-- A request that reaches a handler which changes payments or bookings is a POST of an allowed origin,
-- was authenticated and went through the idempotency check; one that reaches a handler for
-- administrators was authenticated with their role; and none of them reaches it where the check for
-- forged requests fails.
pub handlers_guarded :
    (is_prod : Bool) (origins : List Text) (v : Verdicts) (q : Request) (h : Handler)
    → respond is_prod origins v q ≡ handled h
    → (csrf_protection is_prod q.method q.x_requested_with ≡ true)
      × (origin_allowed origins q.origin ≡ true)
      × (is_financial h ≡ true
          → (text_eq (codes "POST") q.method ≡ true)
            × (v.passes authenticate ≡ true)
            × (v.passes idempotency_strict ≡ true))
      × (is_for_admins h ≡ true → (v.passes authenticate ≡ true) × (v.passes require_admin ≡ true))
handlers_guarded is_prod origins v q h run =
    let r = reached is_prod origins v q h run in
    let p = route-Passed v.passes q h r.2 in (r.0, r.1, p.0, p.1)

-- In production, a webhook of the provider, which sends no X-Requested-With, never reaches its
-- handler, whatever its signature is: it is refused as a forged request, unless it is refused before.
pub webhooks_refused :
    (origins : List Text) (v : Verdicts) (q : Request)
    → q.method ≡ codes "POST"
    → q.x_requested_with ≡ none
    → respond true origins v q ≢ handled razorpay_webhook
unfolding csrf_protection text_eq
webhooks_refused origins v q m x run =
    let r = (reached true origins v q razorpay_webhook run).0 in
    let s : csrf_protection true (codes "POST") none ≡ true = rw (m, x) at r in ground (arith, s)
