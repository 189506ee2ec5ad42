-- ===== src/Tokens/Revocation.antt =====
-- jwt.js: `isRevoked`, `revokeToken` and `revokeAllUserTokens`. Ids are numbers that are only compared.
-- Times are in milliseconds, but for the issue time of a token, in seconds, and lifetimes.
use helloplanbuddy_cmd_plan.Base.{
  ℕ, ◌+◌, ◌-◌, ◌*◌, ◌/◌, max, Bool, true, false, not, ◌&&◌, ◌||◌, Option, none, some, List, [], ◌∷◌,
  ltb, leb, ◌==◌, if◌then◌else◌,
}

-- An entry of Redis or a row's lifetime ends at `expires`.
pub record Mark : Type 0 where
  pub key : ℕ
  pub value : ℕ
  pub expires : ℕ

-- A row of token_blacklist. A row of `revokeAllUserTokens` has a fresh jti with the prefix 'revoke_all_'.
pub record Row : Type 0 where
  pub jti : ℕ
  pub user : ℕ
  pub is_marker : Bool
  pub created_at : ℕ
  pub expires_at : ℕ

-- Redis under jwt:blacklist: and jwt:revoked_all:, and the table.
pub record Store : Type 0 where
  pub redis_ready : Bool
  pub blacklist : List Mark
  pub revoked_all : List Mark
  pub rows : List Row

-- Which commands throw; `marker_fails` is the second query of `isRevoked`.
pub record Faults : Type 0 where
  pub blacklist_fails : Bool
  pub revoked_all_fails : Bool
  pub row_fails : Bool
  pub marker_fails : Bool

-- `GET`, which finds no entry that has run out.
unfoldable pub get_mark : ℕ → ℕ → List Mark → Option ℕ
get_mark key now [] = none
get_mark key now (m ∷ ms) =
    if m.key == key && ltb now m.expires then some m.value else get_mark key now ms

unfoldable pub any_row : (Row → Bool) → List Row → Bool
any_row test [] = false
any_row test (r ∷ t) = test r || any_row test t

abbrev pub is_some : Option ℕ → Bool
is_some none = false
is_some (some v) = true

-- `revokedAt >= iat * 1000`; a token without an issue time is always covered.
abbrev pub covers : Option ℕ → ℕ → Bool
covers none revoked_at = true
covers (some iat) revoked_at = leb (iat * 1000) revoked_at

abbrev pub covered : Option ℕ → Option ℕ → Bool
covered iat none = false
covered iat (some revoked_at) = covers iat revoked_at

abbrev pub in_blacklist : Faults → ℕ → ℕ → Store → Bool
in_blacklist f jti now s =
    s.redis_ready && not f.blacklist_fails && is_some (get_mark jti now s.blacklist)

abbrev pub in_revoked_all : Faults → Option ℕ → Option ℕ → ℕ → Store → Bool
in_revoked_all f none iat now s = false
in_revoked_all f (some user) iat now s =
    s.redis_ready && not f.revoked_all_fails && covered iat (get_mark user now s.revoked_all)

-- `created_at > TO_TIMESTAMP(iat)`
abbrev pub is_after : Option ℕ → ℕ → Bool
is_after none created = true
is_after (some iat) created = ltb (iat * 1000) created

abbrev pub has_marker : Option ℕ → Option ℕ → List Row → Bool
has_marker none iat t = false
has_marker (some user) iat t =
    any_row (λ r. r.user == user && (r.is_marker && is_after iat r.created_at)) t

abbrev pub in_rows : Faults → ℕ → Option ℕ → Option ℕ → Store → Bool
in_rows f jti user iat s =
    not f.row_fails
    && (any_row (λ r. r.jti == jti) s.rows || not f.marker_fails && has_marker user iat s.rows)

-- `isRevoked`; a token without a jti is not.
unfoldable pub is_revoked : Faults → Option ℕ → Option ℕ → Option ℕ → ℕ → Store → Bool
is_revoked f none user iat now s = false
is_revoked f (some jti) user iat now s =
    in_blacklist f jti now s || in_revoked_all f user iat now s || in_rows f jti user iat s

-- The lifetime in seconds: up to the token's end, rounded up and at least one, or the configured one.
abbrev pub ttl_seconds : ℕ → Option ℕ → ℕ → ℕ
ttl_seconds configured none now = configured
ttl_seconds configured (some expires_at) now = max 1 ((expires_at - now + 999) / 1000)

abbrev pub end_of : ℕ → Option ℕ → ℕ → ℕ
end_of configured none now = now + configured * 1000
end_of configured (some expires_at) now = expires_at

abbrev pub insert_row : Row → List Row → List Row
insert_row r t = if any_row (λ q. q.jti == r.jti) t then t else r ∷ t

-- `revokeToken`; `configured` is the lifetime that `getJwtExpiration` gives.
unfoldable pub revoke_token : Faults → ℕ → ℕ → ℕ → Option ℕ → ℕ → Store → Store
revoke_token f configured jti user expires_at now s =
    let ttl = ttl_seconds configured expires_at now in
    record s {
      rows =
          if f.row_fails
          then s.rows
          else insert_row
              (record {
                jti = jti;
                user = user;
                is_marker = false;
                created_at = now;
                expires_at = end_of configured expires_at now;
              })
              s.rows;
      blacklist =
          if s.redis_ready && (ltb 0 ttl && not f.blacklist_fails)
          then record { key = jti; value = 1; expires = now + ttl * 1000 } ∷ s.blacklist
          else s.blacklist;
    }

-- `revokeAllUserTokens`; `marker` is the fresh jti of the row.
unfoldable pub revoke_all_user_tokens : Faults → ℕ → ℕ → ℕ → Option ℕ → ℕ → Store → Store
revoke_all_user_tokens f configured marker user expires_at now s =
    let ttl = ttl_seconds configured expires_at now in
    record s {
      revoked_all =
          if s.redis_ready && not f.revoked_all_fails
          then record { key = user; value = now; expires = now + ttl * 1000 } ∷ s.revoked_all
          else s.revoked_all;
      rows =
          if f.row_fails
          then s.rows
          else insert_row
              (record {
                jti = marker;
                user = user;
                is_marker = true;
                created_at = now;
                expires_at = end_of configured expires_at now;
              })
              s.rows;
    }
