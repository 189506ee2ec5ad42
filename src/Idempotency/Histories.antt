-- ===== src/Idempotency/Histories.antt =====
-- Histories of runIdempotency of idempotency.js: requests begin, end and fail in any order.
use helloplanbuddy_cmd_plan.Base.{
  ℕ, ◌+◌, ◌<◌, ◌≡◌, sym, ◌∙◌, ◌⊎◌, inl, inr, Bool, true, false, Option, some, List, [], ◌∷◌, arith,
  Bool-cases, All,
}
use helloplanbuddy_cmd_plan.Base.Text.{
  Text, text_eq, text_eq→eq, lookup, insert, erase, lookup-insert_other, lookup-erase_other,
}
use helloplanbuddy_cmd_plan.Idempotency.Keys.{Request, scoped_key}
use helloplanbuddy_cmd_plan.Idempotency.Conflicts.{live_flag}
use helloplanbuddy_cmd_plan.Idempotency.Requests.{
  World, Config, BeginFaults, FinishFaults, begin, begin_key, finish, finish_key, lock_ttl_s,
}
use helloplanbuddy_cmd_plan.Idempotency.Middleware.{rescue}

-- A request begins, a captured one ends, one is rescued after something was thrown, or the client of
-- Redis becomes ready or not.
pub data Step : Type 0 where
  begins : Request → Text → BeginFaults → ℕ → Step
  ends : Request → Text → FinishFaults → Bool → ℕ → ℕ → ℕ → Step
  rescues : Request → Text → Step
  turns : Bool → Step

unfoldable pub take_step : Config → Step → World → World
take_step c (begins q raw f now) w = (begin c q raw f now w).0
take_step c (ends q raw f lock status body now) w = finish c q raw f lock status body now w
take_step c (rescues q raw) w = (rescue q raw w).0
take_step c (turns ready) w = record w { redis_ready = ready }

unfoldable pub take_steps : Config → List Step → World → World
take_steps c [] w = w
take_steps c (e ∷ es) w = take_steps c es (take_step c e w)

-- Up to the time, no request that took the lock of the key ends and none of the key is rescued.
abbrev pub LeavesLock : Text → ℕ → Step → Type 0
LeavesLock key until (begins q raw f now) = now < until
LeavesLock key until (ends q raw f lock status body now) =
    (lock ≡ false) ⊎ (text_eq key (scoped_key q raw) ≡ false)
LeavesLock key until (rescues q raw) = text_eq key (scoped_key q raw) ≡ false
LeavesLock key until (turns ready) = Unit

begin_locks :
    (c : Config) (q : Request) (f : BeginFaults) (now : ℕ) (key : Text) (w : World)
    → let v = (begin_key c q f now key w).0 in
      (v.locks ≡ w.locks)
      ⊎ ((v.locks ≡ insert key (now + lock_ttl_s) w.locks)
          × (live_flag (lookup key w.locks) now ≡ false))
unfolding begin_key
begin_locks c q f now key w = ground arith

held_live : (e now : ℕ) (o : Option ℕ) → o ≡ some e → now < e → live_flag o now ≡ true
held_live e now o h lt = rw h (ground (arith, lt))

begin_keeps_lock :
    (c : Config) (q : Request) (f : BeginFaults) (now e : ℕ) (key k : Text) (w : World)
    → lookup key w.locks ≡ some e
    → now < e
    → lookup key (begin_key c q f now k w).0.locks ≡ some e
begin_keeps_lock c q f now e key k w h lt = elim (begin_locks c q f now k w) [
  | inl same ↦ rw same h
  | inr (taken, free) ↦ elim (Bool-cases (text_eq key k)) [
    | inl eq ↦
        let one : key ≡ k = text_eq→eq key k eq in
        let live = held_live e now (lookup k w.locks) (rw (sym one) h) lt in
        absurd (ground (arith, live, free))
    | inr ne ↦ rw taken (lookup-insert_other key k (now + lock_ttl_s) w.locks ne ∙ h)
  ]
]

finish_locks :
    (c : Config) (f : FinishFaults) (lock : Bool) (status body now : ℕ) (key : Text) (w : World)
    → let v = finish_key c f lock status body now key w in
      (v.locks ≡ w.locks) ⊎ ((lock ≡ true) × (v.locks ≡ erase key w.locks))
unfolding finish_key
finish_locks c f lock status body now key w = ground arith

finish_keeps_lock :
    (c : Config) (f : FinishFaults) (lock : Bool) (status body now e : ℕ) (key k : Text) (w : World)
    → (lock ≡ false) ⊎ (text_eq key k ≡ false)
    → lookup key w.locks ≡ some e
    → lookup key (finish_key c f lock status body now k w).locks ≡ some e
finish_keeps_lock c f lock status body now e key k w spared h =
    elim (finish_locks c f lock status body now k w) [
      | inl same ↦ rw same h
      | inr (had, gone) ↦ elim spared [
        | inl had_not ↦ absurd (ground (arith, had, had_not))
        | inr ne ↦ rw gone (lookup-erase_other key k w.locks ne ∙ h)
      ]
    ]

rescue_keeps_lock :
    (q : Request) (raw : Text) (e : ℕ) (key : Text) (w : World)
    → text_eq key (scoped_key q raw) ≡ false
    → lookup key w.locks ≡ some e
    → lookup key (rescue q raw w).0.locks ≡ some e
rescue_keeps_lock q raw e key w ne h = elim (Bool-cases w.redis_ready) [
  | inl ready ↦ rw ready (lookup-erase_other key (scoped_key q raw) w.locks ne ∙ h)
  | inr down ↦ rw down h
]

pub lock_kept :
    (c : Config) (es : List Step) (e : ℕ) (key : Text) (w : World)
    → All (LeavesLock key e) es
    → lookup key w.locks ≡ some e
    → lookup key (take_steps c es w).locks ≡ some e
unfolding take_steps take_step begin finish
lock_kept c [] e key w a h = h
lock_kept c (begins q raw f now ∷ es) e key w a h =
    lock_kept c es e key _ a.1 (begin_keeps_lock c q f now e key (scoped_key q raw) w h a.0)
lock_kept c (ends q raw f lock status body now ∷ es) e key w a h =
    lock_kept c es e key _ a.1
      (finish_keeps_lock c f lock status body now e key (scoped_key q raw) w a.0 h)
lock_kept c (rescues q raw ∷ es) e key w a h =
    lock_kept c es e key _ a.1 (rescue_keeps_lock q raw e key w a.0 h)
lock_kept c (turns ready ∷ es) e key w a h = lock_kept c es e key _ a.1 h
