-- ===== src/Auth/Guessing.antt =====
-- How often a password can be guessed.
use helloplanbuddy_cmd_plan.Base.{
  ℕ, suc, ◌+◌, ◌-◌, ◌≤◌, ◌<◌, max, ◌≡◌, refl, ap, ◌⊎◌, inl, inr, Bool, true, false, none, some,
  List, [], ◌∷◌, arith, leb, if◌then◌else◌, Bool-cases, length, All, All-map,
}
use helloplanbuddy_cmd_plan.Auth.Accounts.{User}
use helloplanbuddy_cmd_plan.Auth.Login.{
  max_failed_logins, lockout_ms, Answer, invalid_credentials, deactivated, locked, signed_in, Write,
  set_failures, apply_write, is_locked, lock_after, judge,
}

abbrev pub is_compared : Answer → Bool
is_compared invalid_credentials = true
is_compared (signed_in id role) = true
is_compared deactivated = false
is_compared (locked minutes) = false
is_compared Answer.fields_missing = false

-- Attempts with wrong passwords, one after the other, at the given times: how many passwords are
-- compared with the user's.
unfoldable pub guesses_compared : List ℕ → User → ℕ
guesses_compared [] u = 0
guesses_compared (now ∷ times) u =
    let w = judge now false u in
    let rest = guesses_compared times (apply_write w.0 u) in
    if is_compared w.1 then suc rest else rest

judge_shut :
    (now until : ℕ) (u : User)
    → u.locked_until ≡ some until
    → now < until
    → (is_compared (judge now false u).1 ≡ false) × (apply_write (judge now false u).0 u ≡ u)
unfolding judge apply_write
judge_shut now until u lock before = elim (Bool-cases u.is_active) [
  | inl active ↦ rw (active, lock) (ground (arith, before))
  | inr inactive ↦ rw inactive (refl, refl)
]

shut_compares_none :
    (end until : ℕ) (times : List ℕ) (u : User)
    → u.locked_until ≡ some until
    → end ≤ until
    → All (λ t. t < end) times
    → guesses_compared times u ≡ 0
unfolding guesses_compared
shut_compares_none end until [] u lock le h = refl
shut_compares_none end until (now ∷ times) u lock le h =
    let j = judge_shut now until u lock (omega (arith, le, h.0)) in
    rw (j.0, j.1) (shut_compares_none end until times u lock le h.1)

-- The row after a failure.
abbrev pub failed : ℕ → User → User
failed now u =
    let attempts = u.failed_login_attempts + 1 in
    record u { failed_login_attempts = attempts; locked_until = lock_after now attempts }

judge_cases :
    (now : ℕ) (u : User)
    → (is_compared (judge now false u).1 ≡ false) × (apply_write (judge now false u).0 u ≡ u)
      ⊎ (is_compared (judge now false u).1 ≡ true)
        × (apply_write (judge now false u).0 u ≡ failed now u)
unfolding judge apply_write
judge_cases now u = elim (Bool-cases u.is_active) [
  | inl active ↦ elim (Bool-cases (is_locked now u.locked_until)) [
    | inl shut ↦ inl (rw (active, shut) (refl, refl))
    | inr unlocked ↦ inr (rw (active, unlocked) (refl, refl))
  ]
  | inr inactive ↦ inl (rw inactive (refl, refl))
]

after_failure :
    (start now : ℕ) (times : List ℕ) (u : User)
    → (start ≤ now) × (now < start + lockout_ms)
    → All (λ t. (start ≤ t) × (t < start + lockout_ms)) times
    → guesses_compared times (failed now u)
      ≤ max 1 (max_failed_logins - (u.failed_login_attempts + 1))
    → suc (guesses_compared times (failed now u))
      ≤ max 1 (max_failed_logins - u.failed_login_attempts)
after_failure start now times u here later le =
    elim (Bool-cases (leb max_failed_logins (u.failed_login_attempts + 1))) [
      | inl shut ↦ omega (
        arith,
        here,
        shut_compares_none (start + lockout_ms) (now + lockout_ms) times (failed now u)
            (rw shut refl) (omega (arith, here)) (All-map (λ t b. b.1) times later),
      )
      | inr unlocked ↦ ground (arith, unlocked, le)
    ]

-- Within any 15 minutes, wrong passwords that are tried one after the other on an account are
-- compared at most five times, less the failures before, and at most once after five failures.
pub guesses_bounded :
    (start : ℕ) (times : List ℕ) (u : User)
    → All (λ t. (start ≤ t) × (t < start + lockout_ms)) times
    → guesses_compared times u ≤ max 1 (max_failed_logins - u.failed_login_attempts)
unfolding guesses_compared
guesses_bounded start [] u h = omega arith
guesses_bounded start (now ∷ times) u h = elim (judge_cases now u) [
  | inl (away, same) ↦ rw (away, same) (guesses_bounded start times u h.1)
  | inr (here, more) ↦
      rw (here, more)
        (after_failure start now times u h.0 h.1 (guesses_bounded start times (failed now u) h.1))
]

-- Attempts that have all read the row before the first of them writes.
unfoldable pub apply_all : List Write → User → User
apply_all [] u = u
apply_all (w ∷ ws) u = apply_all ws (apply_write w u)

unfoldable pub judge_all : List ℕ → User → List Write × ℕ
judge_all [] u = ([], 0)
judge_all (now ∷ times) u =
    let w = judge now false u in
    let rest = judge_all times u in (w.0 ∷ rest.0, (if is_compared w.1 then suc rest.1 else rest.1))

judge_unlocked :
    (now : ℕ) (u : User)
    → u.is_active ≡ true
    → u.locked_until ≡ none
    → u.failed_login_attempts ≤ 3
    → judge now false u ≡ (set_failures (u.failed_login_attempts + 1) none, invalid_credentials)
unfolding judge
judge_unlocked now u active unlocked few =
    let early : leb max_failed_logins (u.failed_login_attempts + 1) ≡ false = ground (arith, few) in
    rw (active, unlocked, early) refl

judge_all_unlocked :
    (times : List ℕ) (u v : User)
    → u.is_active ≡ true
    → u.locked_until ≡ none
    → u.failed_login_attempts ≤ 3
    → v.failed_login_attempts ≡ u.failed_login_attempts + 1
    → ((judge_all times u).1 ≡ length times)
      × ((apply_all (judge_all times u).0 v).failed_login_attempts ≡ u.failed_login_attempts + 1)
unfolding judge_all apply_all apply_write
judge_all_unlocked [] u v active unlocked few one = (refl, one)
judge_all_unlocked (now ∷ times) u v active unlocked few one =
    rw (judge_unlocked now u active unlocked few) (
      let rest =
        judge_all_unlocked times u
          (record v { failed_login_attempts = u.failed_login_attempts + 1; locked_until = none })
          active unlocked few refl in
      (ap suc rest.0, rest.1))

-- When wrong passwords are tried at once on an account with at most three failures and no lock, all
-- of them are compared, and together they count as one failure.
pub guesses_at_once :
    (now : ℕ) (times : List ℕ) (u : User)
    → u.is_active ≡ true
    → u.locked_until ≡ none
    → u.failed_login_attempts ≤ 3
    → ((judge_all (now ∷ times) u).1 ≡ suc (length times))
      × ((apply_all (judge_all (now ∷ times) u).0 u).failed_login_attempts
          ≡ u.failed_login_attempts + 1)
unfolding judge_all apply_all apply_write
guesses_at_once now times u active unlocked few = rw (judge_unlocked now u active unlocked few) (
    let rest =
      judge_all_unlocked times u
        (record u { failed_login_attempts = u.failed_login_attempts + 1; locked_until = none })
        active unlocked few refl in
    (ap suc rest.0, rest.1))
