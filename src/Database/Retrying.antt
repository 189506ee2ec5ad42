-- ===== src/Database/Retrying.antt =====
-- How a transaction ends.
use mathlib.Core.Path.{subst}
use helloplanbuddy_cmd_plan.Base.{
  ℕ, zero, suc, ◌+◌, ◌≤◌, ◌≡◌, refl, sym, ap, ◌∙◌, ◌≢◌, inl, inr, none, some, arith, Option-cases,
}
use helloplanbuddy_cmd_plan.Database.Transactions.{
  Outcome, not_connected, committed, failed, Result, returned, threw, connection_threw, delay,
  after, Ended, run_from, run_transaction,
}

after_committed {κ} :
    {A : Type κ} (attempt : ℕ) (o : Outcome A) (a : A)
    → after attempt o ≡ some (returned a)
    → o ≡ committed a
after_committed attempt not_connected a h = cc
after_committed attempt (committed b) a h = cc
after_committed attempt (failed code) a h = ground (arith, h)

module _ {ℓ κ} {D : Type ℓ} {A : Type κ} (once : ℕ → D → D × Outcome A) (others : ℕ → D → D) where
  after_last :
      (attempt : ℕ) (o : Outcome A) → 3 ≤ attempt → (r : Result A) × (after attempt o ≡ some r)
  after_last attempt not_connected le = (connection_threw, refl)
  after_last attempt (committed a) le = (returned a, refl)
  after_last attempt (failed code) le = (threw code, ground (arith, le))

  abbrev stopped : ℕ → ℕ → D → Result A → Ended D A
  stopped attempts waited d r = record {
    state = (once (suc attempts) d).0;
    result = r;
    attempts = suc attempts;
    waited = waited;
  }

  run_stops :
      (fuel attempts waited : ℕ) (d : D) (r : Result A)
      → after (suc attempts) (once (suc attempts) d).1 ≡ some r
      → run_from once others (suc fuel) attempts waited d ≡ some (stopped attempts waited d r)
  unfolding run_from
  run_stops fuel attempts waited d r h = rw h refl

  run_retries :
      (fuel attempts waited : ℕ) (d : D)
      → after (suc attempts) (once (suc attempts) d).1 ≡ none
      → run_from once others (suc fuel) attempts waited d
        ≡ run_from once others fuel
            (suc attempts)
            (waited + delay (suc attempts))
            (others (suc attempts) (once (suc attempts) d).0)
  unfolding run_from
  run_retries fuel attempts waited d h = rw h refl

  -- A transaction ends after at most three attempts, whatever its attempts and other transactions do, and has waited at most
  -- 150 milliseconds and the random parts: fuel for three attempts is enough.
  pub transaction_ends :
      (more : ℕ) (d : D)
      → (e : Ended D A) × ((run_transaction once others (suc (suc (suc more))) d ≡ some e)
          × ((e.attempts ≤ 3) × (e.waited ≤ 150)))
  unfolding run_transaction delay
  transaction_ends more d =
      let d1 = others 1 (once 1 d).0 in
      let d2 = others 2 (once 2 d1).0 in
      let last = after_last 3 (once 3 d2).1 (omega arith) in
      elim (Option-cases (after 1 (once 1 d).1)) [
        | inr (r, h) ↦
            (stopped 0 0 d r, (run_stops (suc (suc more)) 0 0 d r h, (omega arith, omega arith)))
        | inl again ↦ elim (Option-cases (after 2 (once 2 d1).1)) [
          | inr (r, h) ↦ (
            stopped 1 50 d1 r,
            (
              run_retries (suc (suc more)) 0 0 d again ∙ run_stops (suc more) 1 50 d1 r h,
              (omega arith, omega arith),
            ),
          )
          | inl more_again ↦ (
            stopped 2 150 d2 last.0,
            (
              run_retries (suc (suc more)) 0 0 d again
                  ∙ (run_retries (suc more) 1 50 d1 more_again
                      ∙ run_stops more 2 150 d2 last.0 last.1),
              (omega arith, omega arith),
            ),
          )
        ]
      ]

module _ {ℓ} {D : Type ℓ} {A : Type ℓ} (once : ℕ → D → D × Outcome A) (others : ℕ → D → D) where
  -- What a state becomes by the other transactions alone, up to the attempt after so many.
  abbrev pub evolved : ℕ → D → D
  evolved zero d = d
  evolved (suc n) d = others (suc n) (evolved n d)

  -- Attempt n + 1 began with the state that the other transactions had left of the first one. A value was
  -- committed by it; otherwise that state is what is left.
  abbrev pub LeftBy : ℕ → D → D → Result A → Type ℓ
  LeftBy n d v (returned a) = once (suc n) (evolved n d) ≡ (v, committed a)
  LeftBy n d v (threw code) = v ≡ evolved n d
  LeftBy n d v connection_threw = v ≡ evolved n d

  abbrev pub EndsClean : D → Ended D A → Type ℓ
  EndsClean d e = (n : ℕ) × (e.attempts ≡ suc n) × LeftBy n d e.state e.result

  -- The database promises with its ROLLBACK that an attempt that does not commit changes nothing.
  module _
      (rolled_back : (attempt : ℕ) (d : D)
        → ((a : A) → (once attempt d).1 ≢ committed a)
        → (once attempt d).0 ≡ d) where
    ends_here :
        (n : ℕ) (d : D) (result : Result A)
        → after (suc n) (once (suc n) (evolved n d)).1 ≡ some result
        → LeftBy n d (once (suc n) (evolved n d)).0 result
    ends_here n d (returned a) ends =
        ap (λ o. ((once (suc n) (evolved n d)).0, o))
          (after_committed (suc n) (once (suc n) (evolved n d)).1 a ends)
    ends_here n d (threw code) ends =
        rolled_back (suc n) (evolved n d)
          (λ b hit. let e = sym ends ∙ ap (after (suc n)) hit in absurd (cc e))
    ends_here n d connection_threw ends =
        rolled_back (suc n) (evolved n d)
          (λ b hit. let e = sym ends ∙ ap (after (suc n)) hit in absurd (cc e))

    ends_clean :
        (fuel n waited : ℕ) (d : D) (e : Ended D A)
        → run_from once others fuel n waited (evolved n d) ≡ some e
        → EndsClean d e
    unfolding run_from
    ends_clean zero n waited d e h = cc
    ends_clean (suc fuel) n waited d e h =
        let s = evolved n d in
        elim (Option-cases (after (suc n) (once (suc n) s).1)) [
          | inr (result, ends) ↦
              let same : some (stopped once others n waited s result) ≡ some e =
                sym (run_stops once others fuel n waited s result ends) ∙ h in
              let is_e : stopped once others n waited s result ≡ e = cc same in
              subst (EndsClean d) is_e (n, refl, ends_here n d result ends)
          | inl again ↦
              let lost : (a : A) → (once (suc n) s).1 ≢ committed a =
                λ b hit. absurd (cc (again, ap (after (suc n)) hit)) in
              let back : (once (suc n) s).0 ≡ s = rolled_back (suc n) s lost in
              let next : run_from once others fuel (suc n) (waited + delay (suc n))
                    (evolved (suc n) d)
                  ≡ some e =
                ap
                  (λ r.
                    run_from once others fuel (suc n) (waited + delay (suc n)) (others (suc n) r))
                  (sym back)
                ∙ (sym (run_retries once others fuel n waited s again) ∙ h) in
              ends_clean fuel (suc n) (waited + delay (suc n)) d e next
        ]

    -- The attempts of a transaction that are retried leave no trace: if it returns a value, its last
    -- attempt committed that value and its changes, and nothing else, to the state that other transactions
    -- had made of the first one meanwhile, and if it throws, it leaves just that state.
    pub all_or_nothing :
        (fuel : ℕ) (d : D) (e : Ended D A)
        → run_transaction once others fuel d ≡ some e
        → EndsClean d e
    unfolding run_transaction
    all_or_nothing fuel d e h = ends_clean fuel 0 0 d e h
