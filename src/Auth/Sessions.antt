-- ===== src/Auth/Sessions.antt =====
-- authController.js: `refreshToken`, `logout` and `revokeAllSessions`. The service of the refresh tokens
-- is not in this repository: what it does is given.
use helloplanbuddy_cmd_plan.Base.{ℕ, Bool, false, not, Option, none, some, ltb, if◌then◌else◌}
use helloplanbuddy_cmd_plan.Base.Text.{Text}
use helloplanbuddy_cmd_plan.Auth.Accounts.{Role, User, find_user, by_id, is_missing, given}
use helloplanbuddy_cmd_plan.Auth.Passwords.{State, Call, Decoded, revoke_current, revoke_everything}

-- What `rotateRefreshToken` gives or throws: `code` and `userId` of its error.
pub data Rotation : Type 0 where
  rotated : ℕ → Option ℕ → Rotation
  redis_unavailable : Rotation
  token_reuse : Option ℕ → Rotation
  failed : Rotation

pub data Answer : Type 0 where
  bad_request : Answer
  unavailable : Answer
  reuse_detected : Answer
  invalid_token : Answer
  no_longer_valid : Answer
  password_changed : Answer
  done : Answer
  -- A new access token for this user and role.
  refreshed : ℕ → Role → Answer

-- `createdAt < changedAt`, where both are known.
abbrev pub is_older : Option ℕ → Option ℕ → Bool
is_older none changed = false
is_older (some created) none = false
is_older (some created) (some changed) = ltb created changed

module _ {ℓ} {R : Type ℓ} (revoke_all_refresh : ℕ → R → R) where
  abbrev pub refresh_user : Call → ℕ → Option ℕ → Option User → State R → State R × Answer
  refresh_user c user created none s =
      (record s { refresh_tokens = revoke_all_refresh user s.refresh_tokens }, no_longer_valid)
  refresh_user c user created (some u) s =
      if not u.is_active
      then (record s { refresh_tokens = revoke_all_refresh user s.refresh_tokens }, no_longer_valid)
      else (if is_older created u.password_changed_at
          then (revoke_everything revoke_all_refresh c u.id s, password_changed)
          else (s, refreshed u.id u.role))

  abbrev pub after_rotation : Call → Rotation → State R → State R × Answer
  after_rotation c (rotated user created) s =
      refresh_user c user created (find_user (by_id user) s.users) s
  after_rotation c redis_unavailable s = (s, unavailable)
  after_rotation c (token_reuse (some user)) s =
      (revoke_everything revoke_all_refresh c user s, reuse_detected)
  after_rotation c (token_reuse none) s = (s, invalid_token)
  after_rotation c failed s = (s, invalid_token)

  -- `refreshToken`; `rotate` is what the service does with the token.
  unfoldable pub refresh_token :
      (Text → R → R × Rotation) → Call → Option Text → State R → State R × Answer
  refresh_token rotate c token s =
      if is_missing token
      then (s, bad_request)
      else (let r = rotate (given token) s.refresh_tokens in
          after_rotation c r.1 (record s { refresh_tokens = r.0 }))

  -- `logout`; `user` is the decoded token's or the request's.
  unfoldable pub logout :
      (Text → R → R) → Call → Option Text → ℕ → Option Decoded → State R → State R × Answer
  logout delete_refresh c token user header s = if is_missing token then (s, bad_request) else (
    record s {
      tokens = revoke_current c user header s.tokens;
      refresh_tokens = delete_refresh (given token) s.refresh_tokens;
    },
    done,
  )

  -- `revokeAllSessions`
  unfoldable pub revoke_all_sessions : Call → ℕ → State R → State R × Answer
  revoke_all_sessions c user s = (revoke_everything revoke_all_refresh c user s, done)
