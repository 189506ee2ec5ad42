-- ===== src/Api.antt =====
-- planbuddy_v9/app.js: the order in which a request passes the middleware. What Express, the cors
-- library and the components behind a middleware answer is given; a path is the list of its segments,
-- in lower case, as the router compares them.
use helloplanbuddy_cmd_plan.Base.{
  Bool, true, false, not, ◌&&◌, ◌||◌, Option, none, some, List, [], ◌∷◌, if◌then◌else◌,
}
use helloplanbuddy_cmd_plan.Base.Text.{Text, text_eq, codes, any_text}
use helloplanbuddy_cmd_plan.Errors.Handler.{csrf_protection}
use helloplanbuddy_cmd_plan.Proxies.{Forwarded, validate_proxy}
pub mod Routes
pub mod Guarded
use helloplanbuddy_cmd_plan.Api.Routes.{
  Guard, Handler, Route, api_routes, internal_routes, app_routes, internal_ip_guard,
}

pub record Request : Type 0 where
  pub method : Text
  pub path : List Text
  pub origin : Option Text
  pub x_requested_with : Option Text
  pub forwarded : Forwarded

pub data Answer : Type 0 where
  redirected cors_failed preflight csrf_failed body_refused rate_limited overloaded not_found :
      Answer
  refused_by : Guard → Answer
  handled : Handler → Answer

-- What the other components decide about a request.
pub record Verdicts : Type 0 where
  -- `isAllowedProxy` of the source.
  pub trusted_source : Bool
  -- `req.secure`, of the headers that are left.
  pub secure : Forwarded → Bool
  -- Whether the cors library ends the request, as it does with a preflight.
  pub ends_preflight : Bool
  pub body_parses : Bool
  pub within_limit : Bool
  pub has_capacity : Bool
  pub passes : Guard → Bool

-- `!origin || env.CORS_ORIGINS.includes(origin)`
abbrev pub origin_allowed : List Text → Option Text → Bool
origin_allowed origins none = true
origin_allowed origins (some []) = true
origin_allowed origins (some (c ∷ o)) = any_text (text_eq (c ∷ o)) origins

-- The guards of a route, in order, and then its handler.
unfoldable pub run_guards : (Guard → Bool) → List Guard → Handler → Answer
run_guards passes [] h = handled h
run_guards passes (g ∷ gs) h =
    let rest = run_guards passes gs h in if passes g then rest else refused_by g

-- A GET route also answers HEAD.
abbrev pub method_matches : Text → Text → Bool
method_matches wanted method =
    text_eq wanted method || (text_eq wanted (codes "GET") && text_eq method (codes "HEAD"))

unfoldable pub path_matches : List (Option Text) → List Text → Bool
path_matches [] [] = true
path_matches [] (s ∷ path) = false
path_matches (p ∷ ps) [] = false
path_matches (none ∷ ps) (s ∷ path) = path_matches ps path
path_matches (some t ∷ ps) (s ∷ path) = text_eq t s && path_matches ps path

-- The first route that fits; none falls through.
unfoldable pub find_route : List Route → Text → List Text → Option Route
find_route [] method path = none
find_route (r ∷ rs) method path =
    if method_matches r.method method && path_matches r.path path
    then some r
    else find_route rs method path

abbrev pub or_else : Answer → (Guard → Bool) → Option Route → Answer
or_else otherwise passes none = otherwise
or_else otherwise passes (some r) = run_guards passes r.guards r.handler

-- The router under /internal, behind its guard, and the handler of what is not found.
abbrev pub internal : Request → (Guard → Bool) → Answer
internal q passes =
    if passes internal_ip_guard
    then or_else not_found passes (find_route internal_routes q.method q.path)
    else refused_by internal_ip_guard

abbrev pub is_internal : List Text → Bool
is_internal [] = false
is_internal (s ∷ path) = text_eq s (codes "internal")

abbrev pub is_api : List Text → Bool
is_api [] = false
is_api (s ∷ path) = text_eq s (codes "api")

-- The routes, from the metrics on.
unfoldable pub route : Request → (Guard → Bool) → Answer
route q passes =
    or_else
      (or_else (if is_internal q.path then internal q passes else not_found) passes
        (find_route api_routes q.method q.path))
      passes (find_route app_routes q.method q.path)

-- The enforcement of HTTPS, of the headers that are left.
abbrev pub is_redirected : Bool → Verdicts → Forwarded → Bool
is_redirected is_prod v f = is_prod && (not (v.secure f) && not (text_eq f.proto (codes "https")))

-- The application, from the validation of the proxy's headers on.
unfoldable pub respond : Bool → List Text → Verdicts → Request → Answer
respond is_prod origins v q =
    let f = validate_proxy v.trusted_source q.forwarded in
    if is_redirected is_prod v f
    then redirected
    else if not (origin_allowed origins q.origin)
    then cors_failed
    else if v.ends_preflight
    then preflight
    else if not (csrf_protection is_prod q.method q.x_requested_with)
    then csrf_failed
    else if not v.body_parses
    then body_refused
    else if is_api q.path && not v.within_limit
    then rate_limited
    else if not v.has_capacity
    then overloaded
    else route q v.passes
