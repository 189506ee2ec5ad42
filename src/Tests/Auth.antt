-- ===== src/Tests/Auth.antt =====
-- Runs of planbuddy_v9/controllers/authController.js.
use helloplanbuddy_cmd_plan.Base.{
  ℕ, ◌-◌, ◌≤◌, max, ◌≡◌, refl, ◌≢◌, Bool, true, false, none, some, List, [], ◌∷◌, arith, ◌==◌,
  length,
}
use helloplanbuddy_cmd_plan.Base.Text.{Text, text_eq, codes}
use helloplanbuddy_cmd_plan.Idempotency.Keys.{trim}
use helloplanbuddy_cmd_plan.Tokens.Revocation.{Store, Faults, any_row, is_revoked, revoke_token}
use helloplanbuddy_cmd_plan.Tokens.Revoked.{Revocation, one, revoke_each, revoked_for_good}
use helloplanbuddy_cmd_plan.Auth.Accounts.{User, Role, find_user}
use helloplanbuddy_cmd_plan.Auth.Guessing.{guesses_compared, guesses_bounded}
use helloplanbuddy_cmd_plan.Auth.Passwords.{
  Reset, State, Call, find_reset, change_password, replace_password,
}
use helloplanbuddy_cmd_plan.Auth.Resetting.{Attempt, codes_refused, codes_bounded}
use helloplanbuddy_cmd_plan.Auth.Access.{Claims, verified, Outages, Session, granted, authenticate}
use helloplanbuddy_cmd_plan.Auth.Gatekeeping.{old_tokens_refused}
use helloplanbuddy_cmd_plan.Auth.Revoking.{changed_password_revokes}

abbrev account : User
account = record {
  id = 7;
  email = codes "a@b.c";
  name = codes "A";
  phone = none;
  password_hash = 12;
  role = Role.user;
  failed_login_attempts = 1;
  locked_until = none;
  is_active = true;
  password_changed_at = none;
}

guesses_bounded_example :
    guesses_compared (100 ∷ 200 ∷ 300 ∷ 400 ∷ 500 ∷ 600 ∷ []) account ≤ max 1 (5 - 1)
guesses_bounded_example =
    guesses_bounded 100 (100 ∷ 200 ∷ 300 ∷ 400 ∷ 500 ∷ 600 ∷ []) account (ground arith)

abbrev same_case : Text → Text
same_case t = t

abbrev hash : Text → ℕ
hash t = length t

abbrev compare : Text → ℕ → Bool
compare t h = length t == h

abbrev forget : ℕ → List ℕ → List ℕ
forget user r = []

abbrev smooth : Faults
smooth = record {
  blacklist_fails = false;
  revoked_all_fails = false;
  row_fails = false;
  marker_fails = false;
}

abbrev call : Call
call = record { faults = smooth; lifetime = 3600; marker = 99; now = 5000 }

abbrev reset : Reset
reset = record { user_id = 7; token_hash = 3; expires_at = 9000; attempts = 2 }

abbrev down : Store
down = record { redis_ready = false; blacklist = []; revoked_all = []; rows = [] }

abbrev state : State (List ℕ)
state = record { users = account ∷ []; resets = reset ∷ []; tokens = down; refresh_tokens = 1 ∷ [] }

abbrev attempt : Attempt
attempt = record { call = call; otp = codes "123456"; password = codes "longenough" }

codes_bounded_example :
    codes_refused same_case hash compare forget
      (codes "a@b.c")
      (attempt ∷ attempt ∷ attempt ∷ attempt ∷ [])
      state
    ≤ 3
unfolding find_user find_reset text_eq trim
codes_bounded_example =
    codes_bounded same_case hash compare forget (codes "a@b.c")
      (attempt ∷ attempt ∷ attempt ∷ attempt ∷ []) account reset state refl refl
      (refl, (refl, (refl, (refl, tt))))

abbrev later : List Revocation
later = one smooth 60 4 8 none 6000 ∷ []

changed_password_revokes_example :
    is_revoked smooth (some 5) (some 7) (some 4) 8000 (
      revoke_each later
        (change_password same_case hash compare forget call 7
          (some (codes "old password"))
          (some (codes "longenough"))
          none
          state).0.tokens)
    ≡ true
unfolding find_user any_row change_password replace_password
changed_password_revokes_example =
    changed_password_revokes same_case hash compare forget call 7 5 8000
      (some (codes "old password")) (some (codes "longenough")) none (some 4) smooth later state
      refl refl refl refl refl refl

revoked_for_good_example :
    is_revoked smooth
      (some 5)
      none
      none
      9000
      (revoke_each later (revoke_token smooth 3600 5 7 none 5000 down))
    ≡ true
revoked_for_good_example =
    revoked_for_good smooth smooth 3600 5 7 none 5000 9000 none none later down refl refl

abbrev failing : Faults
failing = record smooth { row_fails = true; marker_fails = true }

abbrev failing_call : Call
failing_call = record call { faults = failing }

abbrev outages : Outages
outages = record {
  revocation = failing;
  cache_fails = true;
  password_fails = false;
  active_fails = false;
}

abbrev claims : Claims
claims = record { user = 7; role = Role.user; jti = some 5; issued = some 4 }

abbrev session : Session
session = record {
  users =
      (change_password same_case hash compare forget failing_call 7 (some (codes "old password"))
        (some (codes "longenough")) none state).0.users;
  tokens = down;
  active_cache = [];
}

old_tokens_refused_example :
    (authenticate outages 60 8000 (verified claims) session).1 ≢ granted claims
unfolding find_user change_password replace_password
old_tokens_refused_example =
    old_tokens_refused same_case hash compare forget failing_call 7 (some (codes "old password"))
      (some (codes "longenough")) none state outages 60 8000 4 claims claims session refl refl refl
      refl (omega arith) refl
