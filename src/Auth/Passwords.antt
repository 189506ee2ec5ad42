-- ===== src/Auth/Passwords.antt =====
-- authController.js: `forgotPassword`, `resetPassword` and `changePassword`, with what they revoke.
use helloplanbuddy_cmd_plan.Base.{
  ℕ, ◌+◌, ◌*◌, Bool, true, not, ◌&&◌, ◌||◌, Option, none, some, List, [], ◌∷◌, ltb, leb, ◌==◌,
  if◌then◌else◌, length,
}
use helloplanbuddy_cmd_plan.Base.Text.{Text, text_eq}
use helloplanbuddy_cmd_plan.Idempotency.Keys.{trim}
use helloplanbuddy_cmd_plan.Tokens.Durations.{is_digit}
use helloplanbuddy_cmd_plan.Tokens.Revocation.{Store, Faults, revoke_token, revoke_all_user_tokens}
use helloplanbuddy_cmd_plan.Auth.Accounts.{
  max_password_len, User, find_user, update_user, by_id, is_missing, given,
}

-- A row of password_reset_tokens.
pub record Reset : Type 0 where
  pub user_id : ℕ
  pub token_hash : ℕ
  pub expires_at : ℕ
  pub attempts : ℕ

abbrev pub max_reset_attempts : ℕ
max_reset_attempts = 5

abbrev pub reset_ms : ℕ
reset_ms = 15 * 60 * 1000

unfoldable pub find_reset : ℕ → List Reset → Option Reset
find_reset id [] = none
find_reset id (r ∷ rs) = if r.user_id == id then some r else find_reset id rs

-- `prt.expires_at > NOW()`
abbrev pub not_expired : ℕ → Option Reset → Option Reset
not_expired now none = none
not_expired now (some r) = if ltb now r.expires_at then some r else none

unfoldable pub delete_reset : ℕ → List Reset → List Reset
delete_reset id [] = []
delete_reset id (r ∷ rs) =
    let rest = delete_reset id rs in if r.user_id == id then rest else r ∷ rest

unfoldable pub count_attempt : ℕ → List Reset → List Reset
count_attempt id [] = []
count_attempt id (r ∷ rs) =
    let rest = count_attempt id rs in
    if r.user_id == id then record r { attempts = r.attempts + 1 } ∷ rest else r ∷ rest

-- The tables, the revoked tokens, and the refresh tokens of the service that is not in this repository.
pub record State {ℓ} (R : Type ℓ) : Type ℓ where
  pub users : List User
  pub resets : List Reset
  pub tokens : Store
  pub refresh_tokens : R

pub data Answer : Type 0 where
  bad_request : Answer
  code_sent : Answer
  code_expired : Answer
  too_many_attempts : Answer
  code_incorrect : Answer
  not_found : Answer
  password_incorrect : Answer
  password_set : Answer

-- `/^\d{6}$/`
unfoldable pub all_digits : Text → Bool
all_digits [] = true
all_digits (c ∷ t) = is_digit c && all_digits t

abbrev pub is_code : Text → Bool
is_code t = length t == 6 && all_digits t

abbrev pub has_bad_length : Text → Bool
has_bad_length t = ltb (length t) 8 || ltb max_password_len (length t)

-- What a handler knows of its call: the failures of the revocations, the lifetime of tokens, a fresh
-- id for the marker of a revocation and the time.
pub record Call : Type 0 where
  pub faults : Faults
  pub lifetime : ℕ
  pub marker : ℕ
  pub now : ℕ

-- A decoded token of the `Authorization` header: its id, if any, and the end of its life.
pub record Decoded : Type 0 where
  pub jti : Option ℕ
  pub expires : Option ℕ

abbrev pub revoke_current : Call → ℕ → Option Decoded → Store → Store
revoke_current c user none s = s
revoke_current c user (some d) s = elim d.jti [
  | none ↦ s
  | some jti ↦ revoke_token c.faults c.lifetime jti user d.expires c.now s
]

-- `revoke_all_refresh` is the revocation of the refresh service.
module _ {ℓ} {R : Type ℓ} (revoke_all_refresh : ℕ → R → R) where
  -- `revokeAllUserTokens` and `revokeAllRefreshTokensForUser`, as every caller has them.
  unfoldable pub revoke_everything : Call → ℕ → State R → State R
  revoke_everything c user s = record s {
    tokens = revoke_all_user_tokens c.faults c.lifetime c.marker user none c.now s.tokens;
    refresh_tokens = revoke_all_refresh user s.refresh_tokens;
  }

-- `toLowerCase`, the `hash` and `compare` of bcrypt, and the refresh service's revocation.
module _ {ℓ} {R : Type ℓ} (to_lower_case : Text → Text) (hash : Text → ℕ)
    (compare : Text → ℕ → Bool) (revoke_all_refresh : ℕ → R → R) where
  abbrev pub set_password : ℕ → ℕ → Text → State R → State R
  set_password now user password s = record s {
    users =
        update_user user
          (λ u. record u { password_hash = hash password; password_changed_at = some now }) s.users;
  }

  abbrev pub find_active : Text → State R → Option User
  find_active email s =
      find_user (λ u. text_eq u.email (trim (to_lower_case email)) && u.is_active) s.users

  abbrev pub issue_code : ℕ → Text → Option User → State R → State R × Answer
  issue_code now otp none s = (s, code_sent)
  issue_code now otp (some u) s = (
    record s {
      resets =
          record {
            user_id = u.id;
            token_hash = hash otp;
            expires_at = now + reset_ms;
            attempts = 0;
          }
          ∷ delete_reset u.id s.resets;
    },
    code_sent,
  )

  -- `forgotPassword`, with the code that is drawn, where the mail is sent.
  unfoldable pub forgot_password : ℕ → Text → Option Text → State R → State R × Answer
  forgot_password now otp email s =
      if is_missing email
      then (s, bad_request)
      else issue_code now otp (find_active (given email) s) s

  abbrev pub valid_reset : ℕ → Option User → State R → Option Reset
  valid_reset now none s = none
  valid_reset now (some u) s = not_expired now (find_reset u.id s.resets)

  unfoldable pub use_code : Call → Text → Text → Option Reset → State R → State R × Answer
  use_code c otp password none s = (s, code_expired)
  use_code c otp password (some r) s =
      if leb max_reset_attempts r.attempts
      then (record s { resets = delete_reset r.user_id s.resets }, too_many_attempts)
      else (if compare otp r.token_hash
          then (
            revoke_everything revoke_all_refresh c r.user_id (
                let t = set_password c.now r.user_id password s in
                record t { resets = delete_reset r.user_id t.resets }),
            password_set,
          )
          else (record s { resets = count_attempt r.user_id s.resets }, code_incorrect))

  -- `resetPassword`
  unfoldable pub reset_password :
      Call → Option Text → Option Text → Option Text → State R → State R × Answer
  reset_password c email otp password s =
      if is_missing email || (is_missing otp || is_missing password)
      then (s, bad_request)
      else (if not (is_code (given otp)) || has_bad_length (given password)
          then (s, bad_request)
          else use_code c (given otp) (given password)
              (valid_reset c.now (find_active (given email) s) s) s)

  unfoldable pub replace_password :
      Call → Text → Text → Option Decoded → Option User → State R → State R × Answer
  replace_password c current password header none s = (s, not_found)
  replace_password c current password header (some u) s =
      if compare current u.password_hash
      then (let t =
            revoke_everything revoke_all_refresh c u.id (set_password c.now u.id password s) in
          (record t { tokens = revoke_current c u.id header t.tokens }, password_set))
      else (s, password_incorrect)

  -- `changePassword` of the signed-in user.
  unfoldable pub change_password :
      Call → ℕ → Option Text → Option Text → Option Decoded → State R → State R × Answer
  change_password c user current password header s =
      if is_missing current || is_missing password
      then (s, bad_request)
      else (if has_bad_length (given password)
          then (s, bad_request)
          else replace_password c (given current) (given password) header
              (find_user (by_id user) s.users) s)
