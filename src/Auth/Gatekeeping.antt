-- ===== src/Auth/Gatekeeping.antt =====
-- Which tokens pass.
use mathlib.Core.Path.{subst}
use helloplanbuddy_cmd_plan.Base.{
  ℕ, ◌*◌, ◌<◌, ◌≡◌, refl, sym, ◌≢◌, inl, inr, Bool, true, false, ◌||◌, Option, some, List, arith,
  ==_iff, Bool-cases, Option-cases,
}
use helloplanbuddy_cmd_plan.Base.Text.{Text}
use helloplanbuddy_cmd_plan.Tokens.Revocation.{is_revoked}
use helloplanbuddy_cmd_plan.Auth.Accounts.{
  User, find_user, find_user_holds, find_updated, by_id, update_user, given, is_missing,
}
use helloplanbuddy_cmd_plan.Auth.Passwords.{
  State, Call, Decoded, password_set, has_bad_length, replace_password, change_password,
  revoke_everything,
}
use helloplanbuddy_cmd_plan.Auth.Access.{
  Claims, verified, Outages, Session, granted, is_stale, is_user_active, authenticate,
}

-- A token that is granted access is not revoked, was not issued before the last change of the password
-- as far as the query of it works, and its user is active: by a cache entry that has not run out, or,
-- without one, by the row of the user.
pub granted_sound :
    (f : Outages) (ttl now : ℕ) (c d : Claims) (s : Session)
    → (authenticate f ttl now (verified c) s).1 ≡ granted d
    → (is_revoked f.revocation c.jti (some c.user) c.issued now s.tokens ≡ false)
      × ((is_stale f.password_fails c.user c.issued s.users ≡ false)
          × ((is_user_active f ttl c.user now s).1 ≡ true))
unfolding authenticate
granted_sound f ttl now c d s h = ground (arith, h)

stale_after :
    (fails : Bool) (issued now id : ℕ) (us : List User) (v : User)
    → find_user (by_id id) us ≡ some v
    → v.password_changed_at ≡ some now
    → issued * 1000 < now
    → fails ≡ false
    → is_stale fails id (some issued) us ≢ false
unfolding is_stale
stale_after fails issued now id us v known changed before works fresh =
    ground (arith, before, rw (works, known, changed) at fresh)

module _ {ℓ} {R : Type ℓ} (to_lower_case : Text → Text) (hash : Text → ℕ)
    (compare : Text → ℕ → Bool) (revoke_all_refresh : ℕ → R → R) where
  replaced_user :
      (c : Call) (user : ℕ) (current password : Text) (header : Option Decoded) (u : User)
      (s : State R)
      → find_user (by_id user) s.users ≡ some u
      → (replace_password to_lower_case hash compare revoke_all_refresh c current password header
          (some u)
          s).1
        ≡ password_set
      → (v : User) × ((find_user
              (by_id user)
              (replace_password to_lower_case hash compare revoke_all_refresh c current password
                header
                (some u)
                s).0.users
            ≡ some v)
          × (v.password_changed_at ≡ some c.now))
  unfolding replace_password revoke_everything
  replaced_user c user current password header u s known set =
      let own : u.id ≡ user = (==_iff u.id user).0 (find_user_holds (by_id user) s.users u known) in
      let change : User → User =
        λ v. record v { password_hash = hash password; password_changed_at = some c.now } in
      elim (Bool-cases (compare current u.password_hash)) [
        | inl right ↦
            let row : find_user (by_id user) (update_user u.id change s.users) ≡ some (change u) =
              subst (λ i. find_user (by_id user) (update_user i change s.users) ≡ some (change u))
                (sym own) (find_updated user change s.users u (λ v. refl) known) in
            rw right (change u, (row, refl))
        | inr wrong ↦ absurd (ground (arith, rw wrong at set))
      ]

  changed_user :
      (c : Call) (user : ℕ) (current password : Option Text) (header : Option Decoded) (s : State R)
      → (change_password to_lower_case hash compare revoke_all_refresh c user current password
          header s).1
        ≡ password_set
      → (v : User) × ((find_user
              (by_id user)
              (change_password to_lower_case hash compare revoke_all_refresh c user current password
                header s).0.users
            ≡ some v)
          × (v.password_changed_at ≡ some c.now))
  unfolding change_password replace_password
  changed_user c user current password header s set =
      elim (Bool-cases (is_missing current || is_missing password)) [
        | inl missing ↦ absurd (ground (arith, rw missing at set))
        | inr complete ↦ elim (Bool-cases (has_bad_length (given password))) [
          | inl bad ↦ absurd (ground (arith, rw (complete, bad) at set))
          | inr good ↦ elim (Option-cases (find_user (by_id user) s.users)) [
            | inl unknown ↦ absurd (ground (arith, rw (complete, good, unknown) at set))
            | inr (u, known) ↦
                rw (complete, good, known)
                  (replaced_user c user (given current) (given password) header u s known
                    (rw (complete, good, known) at set))
          ]
        ]
      ]

  -- After a password was changed, no token of the user that was issued before is granted access, also
  -- when the revocation of the tokens failed, as long as the query of the change works.
  pub old_tokens_refused :
      (c : Call) (user : ℕ) (current password : Option Text) (header : Option Decoded) (s : State R)
      (f : Outages) (ttl now issued : ℕ) (t d : Claims) (x : Session)
      → (change_password to_lower_case hash compare revoke_all_refresh c user current password
          header s).1
        ≡ password_set
      → x.users
        ≡ (change_password to_lower_case hash compare revoke_all_refresh c user current password
            header s).0.users
      → t.user ≡ user
      → t.issued ≡ some issued
      → issued * 1000 < c.now
      → f.password_fails ≡ false
      → (authenticate f ttl now (verified t) x).1 ≢ granted d
  old_tokens_refused c user current password header s f ttl now issued t d x set after own when
        before works =
      λ pass.
        let (v, known) = changed_user c user current password header s set in
        let fresh = (granted_sound f ttl now t d x pass).1.0 in
        stale_after f.password_fails issued c.now user x.users v (rw after known.0) known.1 before
          works (rw (sym own, sym when) fresh)
