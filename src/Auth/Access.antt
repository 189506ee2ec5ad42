-- ===== src/Auth/Access.antt =====
-- planbuddy_v9/middleware/index.js: `authenticate`, `requireRole` and the cache of active users. Times
-- are in milliseconds, but for the issue time of a token and the lifetime of the cache, in seconds.
use helloplanbuddy_cmd_plan.Base.{
  ℕ, ◌+◌, ◌*◌, Bool, true, false, not, ◌&&◌, ◌||◌, Option, none, some, List, [], ◌∷◌, ltb, ◌==◌,
  if◌then◌else◌,
}
use helloplanbuddy_cmd_plan.Tokens.Revocation.{Store, Faults, Mark, get_mark, is_revoked}
use helloplanbuddy_cmd_plan.Auth.Accounts.{Role, user, agency, admin, User, find_user, by_id}

-- A token that was verified; `issued` is missing if the claim `iat` is missing or 0.
pub record Claims : Type 0 where
  pub user : ℕ
  pub role : Role
  pub jti : Option ℕ
  pub issued : Option ℕ

-- What the header and `verifyToken` give.
pub data Bearer : Type 0 where
  no_bearer : Bearer
  expired : Bearer
  invalid : Bearer
  verified : Claims → Bearer

-- Which calls of a request throw: those of the revocation, the read of the cache and the two queries.
pub record Outages : Type 0 where
  pub revocation : Faults
  pub cache_fails : Bool
  pub password_fails : Bool
  pub active_fails : Bool

-- The users, the revoked tokens, and the entries user:active: of Redis, with 1 for '1'.
pub record Session : Type 0 where
  pub users : List User
  pub tokens : Store
  pub active_cache : List Mark

pub data Access : Type 0 where
  auth_required : Access
  token_expired : Access
  invalid_token : Access
  token_revoked : Access
  token_stale : Access
  account_deactivated : Access
  granted : Claims → Access

abbrev pub is_changed_after : ℕ → Option ℕ → Bool
is_changed_after issued none = false
is_changed_after issued (some changed) = ltb (issued * 1000) changed

abbrev pub is_stale_for : ℕ → Option User → Bool
is_stale_for issued none = false
is_stale_for issued (some u) = is_changed_after issued u.password_changed_at

-- `isTokenBeforePasswordChange`, and its guard.
unfoldable pub is_stale : Bool → ℕ → Option ℕ → List User → Bool
is_stale fails id none us = false
is_stale fails id (some issued) us = not fails && is_stale_for issued (find_user (by_id id) us)

-- The answer of the database, with the entry that is written to the cache; `ttl` is its lifetime.
abbrev pub read_active : ℕ → ℕ → ℕ → List Mark → Option User → List Mark × Bool
read_active ttl id now cache none = (cache, false)
read_active ttl id now cache (some u) = (
  record { key = id; value = if u.is_active then 1 else 0; expires = now + ttl * 1000 } ∷ cache,
  u.is_active,
)

abbrev pub active_or_read : Bool → ℕ → ℕ → ℕ → Session → Option ℕ → List Mark × Bool
active_or_read fails ttl id now s (some v) = (s.active_cache, v == 1)
active_or_read fails ttl id now s none =
    if fails
    then (s.active_cache, false)
    else read_active ttl id now s.active_cache (find_user (by_id id) s.users)

-- `isUserActive`, where the entry for the cache is written.
unfoldable pub is_user_active : Outages → ℕ → ℕ → ℕ → Session → List Mark × Bool
is_user_active f ttl id now s =
    active_or_read f.active_fails ttl id now s
      (if f.cache_fails then none else get_mark id now s.active_cache)

-- `authenticate`
unfoldable pub authenticate : Outages → ℕ → ℕ → Bearer → Session → Session × Access
authenticate f ttl now no_bearer s = (s, auth_required)
authenticate f ttl now expired s = (s, token_expired)
authenticate f ttl now invalid s = (s, invalid_token)
authenticate f ttl now (verified c) s =
    if is_revoked f.revocation c.jti (some c.user) c.issued now s.tokens
    then (s, token_revoked)
    else (if is_stale f.password_fails c.user c.issued s.users
        then (s, token_stale)
        else (let a = is_user_active f ttl c.user now s in
            (record s { active_cache = a.0 }, (if a.1 then granted c else account_deactivated))))

-- `invalidateUserActiveCache`
unfoldable pub invalidate_user_active_cache : Bool → ℕ → List Mark → List Mark
invalidate_user_active_cache fails id [] = []
invalidate_user_active_cache fails id (m ∷ ms) =
    let rest = invalidate_user_active_cache fails id ms in
    if m.key == id && not fails then rest else m ∷ rest

abbrev pub same_role : Role → Role → Bool
same_role user user = true
same_role agency agency = true
same_role admin admin = true
same_role r s = false

unfoldable pub has_role : Role → List Role → Bool
has_role r [] = false
has_role r (s ∷ ss) = same_role r s || has_role r ss

-- `requireRole`, of the request's user if it has one.
pub data Gate : Type 0 where
  authentication_required insufficient_role passes : Gate

unfoldable pub require_role : List Role → Option Claims → Gate
require_role roles none = authentication_required
require_role roles (some c) = if has_role c.role roles then passes else insufficient_role
