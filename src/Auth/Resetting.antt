-- ===== src/Auth/Resetting.antt =====
-- How often the code of a password reset can be guessed.
use helloplanbuddy_cmd_plan.Base.{
  ℕ, suc, ◌+◌, ◌-◌, ◌≤◌, ◌<◌, ◌≡◌, refl, ◌⊎◌, inl, inr, Bool, true, false, not, ◌||◌, Option, none,
  some, List, [], ◌∷◌, arith, ltb, leb, ◌==◌, if◌then◌else◌, Bool-cases, All,
}
use helloplanbuddy_cmd_plan.Base.Text.{Text}
use helloplanbuddy_cmd_plan.Auth.Accounts.{User, is_missing}
use helloplanbuddy_cmd_plan.Auth.Passwords.{
  Reset, max_reset_attempts, find_reset, delete_reset, count_attempt, State, Call, Answer,
  code_incorrect, bad_request, code_expired, too_many_attempts, is_code, has_bad_length,
  find_active, valid_reset, use_code, reset_password,
}

find_reset_owner :
    (id : ℕ) (rs : List Reset) (r : Reset) → find_reset id rs ≡ some r → r.user_id ≡ id
unfolding find_reset
find_reset_owner id [] r h = cc
find_reset_owner id (q ∷ rs) r h = elim (Bool-cases (q.user_id == id)) [
  | inl here ↦ ground (arith, here, h)
  | inr there ↦ find_reset_owner id rs r (ground (arith, there, h))
]

find_reset-count_attempt :
    (id : ℕ) (rs : List Reset) (r : Reset)
    → find_reset id rs ≡ some r
    → find_reset id (count_attempt id rs) ≡ some (record r { attempts = r.attempts + 1 })
unfolding find_reset count_attempt
find_reset-count_attempt id [] r h = cc
find_reset-count_attempt id (q ∷ rs) r h = elim (Bool-cases (q.user_id == id)) [
  | inl here ↦ ground (arith, here, h)
  | inr there ↦ rw there (rw there (find_reset-count_attempt id rs r (ground (arith, there, h))))
]

find_reset-delete_reset : (id : ℕ) (rs : List Reset) → find_reset id (delete_reset id rs) ≡ none
unfolding find_reset delete_reset
find_reset-delete_reset id [] = refl
find_reset-delete_reset id (q ∷ rs) = ground (arith, find_reset-delete_reset id rs)

abbrev is_incorrect : Answer → Bool
is_incorrect code_incorrect = true
is_incorrect bad_request = false
is_incorrect Answer.code_sent = false
is_incorrect code_expired = false
is_incorrect too_many_attempts = false
is_incorrect Answer.not_found = false
is_incorrect Answer.password_incorrect = false
is_incorrect Answer.password_set = false

-- A request to reset the password: its call, code and new password.
pub record Attempt : Type 0 where
  pub call : Call
  pub otp : Text
  pub password : Text

module _ {ℓ} {R : Type ℓ} (to_lower_case : Text → Text) (hash : Text → ℕ)
    (compare : Text → ℕ → Bool) (revoke_all_refresh : ℕ → R → R) where
  unfoldable pub reset_once : Text → Attempt → State R → State R × Answer
  reset_once email a s =
      reset_password to_lower_case hash compare revoke_all_refresh a.call (some email) (some a.otp)
        (some a.password) s

  -- How many codes are compared and found incorrect, of attempts for one address, one after the other.
  unfoldable pub codes_refused : Text → List Attempt → State R → ℕ
  codes_refused email [] s = 0
  codes_refused email (a ∷ t) s =
      let o = reset_once email a s in
      let rest = codes_refused email t o.0 in if is_incorrect o.1 then suc rest else rest

  used : Attempt → Option User → State R → State R × Answer
  used a o s =
      use_code to_lower_case hash compare revoke_all_refresh a.call a.otp a.password
        (valid_reset to_lower_case hash compare revoke_all_refresh a.call.now o s) s

  reset_shape :
      (email : Text) (a : Attempt) (s : State R)
      → (reset_once email a s ≡ (s, bad_request))
        ⊎ (reset_once email a s
            ≡ used a (find_active to_lower_case hash compare revoke_all_refresh email s) s)
  unfolding reset_once reset_password used
  reset_shape email a s =
      elim (Bool-cases
        (is_missing (some email) || (is_missing (some a.otp) || is_missing (some a.password)))) [
          | inl missing ↦ inl (rw missing refl)
          | inr complete ↦ elim (Bool-cases (not (is_code a.otp) || has_bad_length a.password)) [
            | inl bad ↦ inl (rw (complete, bad) refl)
            | inr good ↦ inr (rw (complete, good) refl)
          ]
        ]

  reset_without_row :
      (email : Text) (a : Attempt) (u : User) (s : State R)
      → find_active to_lower_case hash compare revoke_all_refresh email s ≡ some u
      → find_reset u.id s.resets ≡ none
      → (is_incorrect (reset_once email a s).1 ≡ false) × ((reset_once email a s).0 ≡ s)
  unfolding used use_code
  reset_without_row email a u s known gone = elim (reset_shape email a s) [
    | inl bad ↦ rw bad (refl, refl)
    | inr shape ↦ rw (shape, known, gone) (refl, refl)
  ]

  refused_without_row :
      (email : Text) (t : List Attempt) (u : User) (s : State R)
      → find_active to_lower_case hash compare revoke_all_refresh email s ≡ some u
      → find_reset u.id s.resets ≡ none
      → codes_refused email t s ≡ 0
  unfolding codes_refused
  refused_without_row email [] u s known gone = refl
  refused_without_row email (a ∷ t) u s known gone =
      let o = reset_without_row email a u s known gone in
      rw (o.0, o.1) (refused_without_row email t u s known gone)

  reset_cases :
      (email : Text) (a : Attempt) (u : User) (r : Reset) (s : State R)
      → find_active to_lower_case hash compare revoke_all_refresh email s ≡ some u
      → find_reset u.id s.resets ≡ some r
      → r.user_id ≡ u.id
      → compare a.otp r.token_hash ≡ false
      → (is_incorrect (reset_once email a s).1 ≡ false) × ((reset_once email a s).0 ≡ s)
        ⊎ ((is_incorrect (reset_once email a s).1 ≡ false)
              × ((reset_once email a s).0 ≡ record s { resets = delete_reset u.id s.resets })
            ⊎ (is_incorrect (reset_once email a s).1 ≡ true)
              × ((r.attempts < max_reset_attempts)
                  × ((reset_once email a s).0 ≡ record s { resets = count_attempt u.id s.resets })))
  unfolding used use_code
  reset_cases email a u r s known row own wrong = elim (reset_shape email a s) [
    | inl bad ↦ inl (rw bad (refl, refl))
    | inr shape ↦ elim (Bool-cases (ltb a.call.now r.expires_at)) [
      | inl valid ↦ elim (Bool-cases (leb max_reset_attempts r.attempts)) [
        | inl many ↦ inr (inl (rw (shape, known, row, valid, many, own) (refl, refl)))
        | inr few ↦ inr (
            inr
              (rw (shape, known, row, valid, few, wrong, own) (refl, (ground (arith, few), refl))))
      ]
      | inr expired ↦ inl (rw (shape, known, row, expired) (refl, refl))
    ]
  ]

  -- Wrong codes for an address whose account has a reset code, tried one after the other, are compared
  -- at most five times, less the attempts before, however many are tried.
  pub codes_bounded :
      (email : Text) (t : List Attempt) (u : User) (r : Reset) (s : State R)
      → find_active to_lower_case hash compare revoke_all_refresh email s ≡ some u
      → find_reset u.id s.resets ≡ some r
      → All (λ a. compare a.otp r.token_hash ≡ false) t
      → codes_refused email t s ≤ max_reset_attempts - r.attempts
  unfolding codes_refused
  codes_bounded email [] u r s known row wrong = omega arith
  codes_bounded email (a ∷ t) u r s known row wrong =
      elim (reset_cases email a u r s known row (find_reset_owner u.id s.resets r row) wrong.0) [
        | inl (other, same) ↦ rw (other, same) (codes_bounded email t u r s known row wrong.1)
        | inr (inl (other, deleted)) ↦
            rw (other, deleted)
              (omega (
                arith,
                refused_without_row email t u (record s { resets = delete_reset u.id s.resets })
                    known (find_reset-delete_reset u.id s.resets),
              ))
        | inr (inr (here, (few, counted))) ↦
            rw (here, counted)
              (omega (
                arith,
                few,
                codes_bounded email t u (record r { attempts = r.attempts + 1 })
                    (record s { resets = count_attempt u.id s.resets }) known
                    (find_reset-count_attempt u.id s.resets r row) wrong.1,
              ))
      ]
