-- ===== src/Auth/Login.antt =====
-- authController.js: `login` and the lock of an account.
use helloplanbuddy_cmd_plan.Base.{
  ℕ, ◌+◌, ◌-◌, ◌*◌, ◌/◌, Bool, false, not, ◌||◌, Option, none, some, List, ltb, leb, if◌then◌else◌,
  length,
}
use helloplanbuddy_cmd_plan.Base.Text.{Text}
use helloplanbuddy_cmd_plan.Idempotency.Keys.{trim}
use helloplanbuddy_cmd_plan.Auth.Accounts.{
  max_password_len, Role, User, find_user, update_user, by_email, is_missing, given,
}

abbrev pub max_failed_logins : ℕ
max_failed_logins = 5

abbrev pub lockout_ms : ℕ
lockout_ms = 15 * 60 * 1000

pub data Answer : Type 0 where
  fields_missing : Answer
  invalid_credentials : Answer
  deactivated : Answer
  -- With the minutes to wait.
  locked : ℕ → Answer
  signed_in : ℕ → Role → Answer

-- The statement that an attempt ends with, on the user's row.
pub data Write : Type 0 where
  no_write : Write
  set_failures : ℕ → Option ℕ → Write

unfoldable pub apply_write : Write → User → User
apply_write no_write u = u
apply_write (set_failures attempts until) u = record u {
  failed_login_attempts = attempts;
  locked_until = until;
}

-- `user.locked_until && new Date(user.locked_until) > new Date()`
abbrev pub is_locked : ℕ → Option ℕ → Bool
is_locked now none = false
is_locked now (some until) = ltb now until

abbrev pub wait_minutes : ℕ → Option ℕ → ℕ
wait_minutes now none = 0
wait_minutes now (some until) = (until - now + 59999) / 60000

-- `NOW() + INTERVAL '15 minutes'` from the fifth failure on.
abbrev pub lock_after : ℕ → ℕ → Option ℕ
lock_after now attempts = if leb max_failed_logins attempts then some (now + lockout_ms) else none

-- What an attempt that has read the row `u` writes and answers; `valid` is what bcrypt says.
unfoldable pub judge : ℕ → Bool → User → Write × Answer
judge now valid u =
    if not u.is_active
    then (no_write, deactivated)
    else (if is_locked now u.locked_until
        then (no_write, locked (wait_minutes now u.locked_until))
        else (if valid
            then (
              (if ltb 0 u.failed_login_attempts then set_failures 0 none else no_write),
              signed_in u.id u.role,
            )
            else (
              set_failures (u.failed_login_attempts + 1)
                  (lock_after now (u.failed_login_attempts + 1)),
              invalid_credentials,
            )))

-- `toLowerCase` of the language's library, and the `compare` of bcrypt.
module _ (to_lower_case : Text → Text) (compare : Text → ℕ → Bool) where
  -- An attempt on one user's row, with nothing in between.
  unfoldable pub try_password : ℕ → Text → User → User × Answer
  try_password now password u =
      let w = judge now (compare password u.password_hash) u in (apply_write w.0 u, w.1)

  abbrev pub sign_in : ℕ → Text → Option User → List User → List User × Answer
  sign_in now password none us = (us, invalid_credentials)
  sign_in now password (some u) us =
      let w = judge now (compare password u.password_hash) u in
      (update_user u.id (apply_write w.0) us, w.1)

  -- `login`, up to the tokens of the answer.
  unfoldable pub login : ℕ → Option Text → Option Text → List User → List User × Answer
  login now email password us =
      if is_missing email || is_missing password
      then (us, fields_missing)
      else (if ltb max_password_len (length (given password))
          then (us, invalid_credentials)
          else sign_in now (given password)
              (find_user (by_email (trim (to_lower_case (given email)))) us) us)
