-- ===== src/Auth/Revoking.antt =====
-- Changing or resetting a password ends the sessions.
use helloplanbuddy_cmd_plan.Base.{
  ℕ, ◌≡◌, refl, inl, inr, Bool, true, false, Option, none, some, List, [], ◌∷◌, ◌++◌, arith, ◌==◌,
  ==_iff, Option-cases,
}
use helloplanbuddy_cmd_plan.Base.Text.{Text}
use helloplanbuddy_cmd_plan.Tokens.Revocation.{
  Store, Faults, any_row, is_after, is_revoked, revoke_all_user_tokens,
}
use helloplanbuddy_cmd_plan.Tokens.Revoked.{
  Revocation, one, revoke, revoke_each, all_tokens_revoked, revoked_for_good,
}
use helloplanbuddy_cmd_plan.Auth.Accounts.{
  User, find_user, find_user_holds, by_id, is_missing, given,
}
use helloplanbuddy_cmd_plan.Auth.Passwords.{
  State, Call, Decoded, password_set, revoke_current, revoke_everything, Reset, use_code,
  replace_password, change_password,
}
use helloplanbuddy_cmd_plan.Auth.Sessions.{logout}

-- The revocation of the token in the header, if any.
abbrev pub header_revocation : Call → ℕ → Option Decoded → List Revocation
header_revocation c user none = []
header_revocation c user (some d) = elim d.jti [
  | none ↦ []
  | some jti ↦ one c.faults c.lifetime jti user d.expires c.now ∷ []
]

revoke_each-header :
    (c : Call) (user : ℕ) (header : Option Decoded) (rs : List Revocation) (s : Store)
    → revoke_each rs (revoke_current c user header s)
      ≡ revoke_each (header_revocation c user header ++ rs) s
unfolding revoke_each revoke
revoke_each-header c user none rs s = refl
revoke_each-header c user (some d) rs s = elim (Option-cases d.jti) [
  | inl gone ↦ rw gone refl
  | inr (jti, given_jti) ↦ rw given_jti refl
]

module _ {ℓ} {R : Type ℓ} (to_lower_case : Text → Text) (hash : Text → ℕ)
    (compare : Text → ℕ → Bool) (revoke_all_refresh : ℕ → R → R) where
  -- A sign-out with a refresh token whose header carries a token with an id, where the row is written,
  -- revokes that token for good: every check of it whose query works finds it revoked, whatever is
  -- revoked later.
  pub logout_revokes :
      (delete_refresh : Text → R → R) (c : Call) (token : Option Text) (user jti later : ℕ)
      (expires owner iat : Option ℕ) (g : Faults) (rs : List Revocation) (s : State R)
      → is_missing token ≡ false
      → c.faults.row_fails ≡ false
      → g.row_fails ≡ false
      → is_revoked g (some jti) owner iat later (
          revoke_each rs
            (logout revoke_all_refresh delete_refresh c token user
              (some (record { jti = some jti; expires = expires }))
              s).0.tokens)
        ≡ true
  unfolding logout
  logout_revokes delete_refresh c token user jti later expires owner iat g rs s given_token ok
        read =
      rw given_token (
        revoked_for_good c.faults g c.lifetime jti user expires c.now later owner iat rs s.tokens ok
          read)

  -- The revoked tokens after a change of the password.
  abbrev revoked_by_change : Call → ℕ → Option Decoded → Store → Store
  revoked_by_change c user header t =
      revoke_current c user header
        (revoke_all_user_tokens c.faults c.lifetime c.marker user none c.now t)

  replaced_tokens :
      (c : Call) (user : ℕ) (current password : Text) (header : Option Decoded) (o : Option User)
      (s : State R)
      → ((u : User) → o ≡ some u → u.id ≡ user)
      → (replace_password to_lower_case hash compare revoke_all_refresh c current password header o
          s).1
        ≡ password_set
      → (replace_password to_lower_case hash compare revoke_all_refresh c current password header o
          s).0.tokens
        ≡ revoked_by_change c user header s.tokens
  unfolding replace_password revoke_everything
  replaced_tokens c user current password header none s same set = ground (arith, set)
  replaced_tokens c user current password header (some u) s same set =
      ground (arith, set, same u refl)

  changed_tokens :
      (c : Call) (user : ℕ) (current password : Option Text) (header : Option Decoded) (s : State R)
      → (change_password to_lower_case hash compare revoke_all_refresh c user current password
          header s).1
        ≡ password_set
      → (change_password to_lower_case hash compare revoke_all_refresh c user current password
          header s).0.tokens
        ≡ revoked_by_change c user header s.tokens
  unfolding change_password
  changed_tokens c user current password header s set =
      let o = find_user (by_id user) s.users in
      ground (
        arith,
        set,
        replaced_tokens c user (given current) (given password) header o s
            (λ u known. (==_iff u.id user).0 (find_user_holds (by_id user) s.users u known)),
      )

  -- When a password is changed and the marker's row is written under a fresh id, every check of a
  -- token of the user that was issued before, whatever is revoked later, finds it revoked, as long as
  -- the queries of that check work.
  pub changed_password_revokes :
      (c : Call) (user jti later : ℕ) (current password : Option Text) (header : Option Decoded)
      (iat : Option ℕ) (g : Faults) (rs : List Revocation) (s : State R)
      → (change_password to_lower_case hash compare revoke_all_refresh c user current password
          header s).1
        ≡ password_set
      → c.faults.row_fails ≡ false
      → any_row (λ q. q.jti == c.marker) s.tokens.rows ≡ false
      → is_after iat c.now ≡ true
      → g.row_fails ≡ false
      → g.marker_fails ≡ false
      → is_revoked g (some jti) (some user) iat later (
          revoke_each rs
            (change_password to_lower_case hash compare revoke_all_refresh c user current password
              header s).0.tokens)
        ≡ true
  changed_password_revokes c user jti later current password header iat g rs s set ok fresh old read
        works =
      let all = revoke_all_user_tokens c.faults c.lifetime c.marker user none c.now s.tokens in
      rw
        (
          changed_tokens c user current password header s set,
          revoke_each-header c user header rs all,
        )
        (all_tokens_revoked c.faults g c.lifetime c.marker user jti none iat c.now later
          (header_revocation c user header ++ rs) s.tokens ok fresh old read works)

  used_code_tokens :
      (c : Call) (otp password : Text) (r : Reset) (s : State R)
      → (use_code to_lower_case hash compare revoke_all_refresh c otp password (some r) s).1
        ≡ password_set
      → (use_code to_lower_case hash compare revoke_all_refresh c otp password (some r) s).0.tokens
        ≡ revoke_all_user_tokens c.faults c.lifetime c.marker r.user_id none c.now s.tokens
  unfolding use_code revoke_everything
  used_code_tokens c otp password r s set = ground (arith, set)

  -- When a code that was found for a row is used to set a password and the marker's row is written
  -- under a fresh id, every check of a token of that user that was issued before, whatever is revoked
  -- later, finds it revoked, as long as the queries of that check work.
  pub reset_password_revokes :
      (c : Call) (jti later : ℕ) (otp password : Text) (r : Reset) (iat : Option ℕ) (g : Faults)
      (rs : List Revocation) (s : State R)
      → (use_code to_lower_case hash compare revoke_all_refresh c otp password (some r) s).1
        ≡ password_set
      → c.faults.row_fails ≡ false
      → any_row (λ q. q.jti == c.marker) s.tokens.rows ≡ false
      → is_after iat c.now ≡ true
      → g.row_fails ≡ false
      → g.marker_fails ≡ false
      → is_revoked g (some jti) (some r.user_id) iat later (
          revoke_each rs
            (use_code to_lower_case hash compare revoke_all_refresh c otp password
              (some r)
              s).0.tokens)
        ≡ true
  reset_password_revokes c jti later otp password r iat g rs s set ok fresh old read works =
      rw (used_code_tokens c otp password r s set) (
        all_tokens_revoked c.faults g c.lifetime c.marker r.user_id jti none iat c.now later rs
          s.tokens ok fresh old read works)
