-- ===== src/Idempotency/Entries.antt =====
-- The stored answers of idempotency.js through histories of requests.
use helloplanbuddy_cmd_plan.Base.{
  ℕ, ◌+◌, ◌≡◌, refl, sym, ap, ◌∙◌, ◌⊎◌, inl, inr, Bool, true, false, Option, none, some, List, [],
  ◌∷◌, arith, Bool-cases, All,
}
use helloplanbuddy_cmd_plan.Base.Text.{
  Text, Store, text_eq, text_eq→eq, lookup, insert, erase, lookup-insert_other, lookup-erase_other,
}
use helloplanbuddy_cmd_plan.Idempotency.Keys.{Request, scoped_key}
use helloplanbuddy_cmd_plan.Idempotency.Requests.{
  good, corrupt, Stored, World, Config, BeginFaults, FinishFaults, begin, begin_key, finish,
  finish_key, is_success, upsert,
}
use helloplanbuddy_cmd_plan.Idempotency.Middleware.{rescue}
use helloplanbuddy_cmd_plan.Idempotency.Histories.{
  Step, begins, ends, rescues, turns, take_step, take_steps,
}

abbrev pub is_corrupt : Option Stored → Bool
is_corrupt none = false
is_corrupt (some s) = elim s.saved [ good status body ↦ false | corrupt ↦ true ]

-- No 2xx answer of the key is stored, nor one of another key under its digest.
abbrev pub LeavesEntry : Config → Text → Step → Type 0
LeavesEntry c key (begins q raw f now) = Unit
LeavesEntry c key (ends q raw f lock status body now) =
    (is_success status ≡ false)
    ⊎ ((text_eq key (scoped_key q raw) ≡ false)
        × (text_eq (c.digest key) (c.digest (scoped_key q raw)) ≡ false))
LeavesEntry c key (rescues q raw) = Unit
LeavesEntry c key (turns ready) = Unit

begin_rows :
    (c : Config) (q : Request) (f : BeginFaults) (now : ℕ) (key : Text) (w : World)
    → (begin_key c q f now key w).0.rows ≡ w.rows
unfolding begin_key
begin_rows c q f now key w = ground arith

begin_done :
    (c : Config) (q : Request) (f : BeginFaults) (now : ℕ) (key : Text) (w : World)
    → let v = (begin_key c q f now key w).0 in
      (v.done ≡ w.done) ⊎ ((v.done ≡ erase key w.done) × (is_corrupt (lookup key w.done) ≡ true))
unfolding begin_key
begin_done c q f now key w = ground arith

begin_keeps_done :
    (c : Config) (q : Request) (f : BeginFaults) (now : ℕ) (key k : Text) (w : World)
    → is_corrupt (lookup key w.done) ≡ false
    → lookup key (begin_key c q f now k w).0.done ≡ lookup key w.done
begin_keeps_done c q f now key k w sane = elim (begin_done c q f now k w) [
  | inl same ↦ rw same refl
  | inr (gone, bad) ↦ elim (Bool-cases (text_eq key k)) [
    | inl eq ↦
        let one : key ≡ k = text_eq→eq key k eq in
        let fine : is_corrupt (lookup k w.done) ≡ false = rw (sym one) sane in
        absurd (ground (arith, fine, bad))
    | inr ne ↦ rw gone (lookup-erase_other key k w.done ne)
  ]
]

finish_stores :
    (c : Config) (f : FinishFaults) (lock : Bool) (status body now : ℕ) (key : Text) (w : World)
    → let v = finish_key c f lock status body now key w in
      let s : Stored = record { saved = good status body; expires = now + c.ttl_s } in
      let r : Stored = upsert (lookup (c.digest key) w.rows) (good status body) (now + c.ttl_s) in
      ((v.done ≡ w.done) ⊎ ((is_success status ≡ true) × (v.done ≡ insert key s w.done)))
      × ((v.rows ≡ w.rows)
          ⊎ ((is_success status ≡ true) × (v.rows ≡ insert (c.digest key) r w.rows)))
unfolding finish_key
finish_stores c f lock status body now key w = ground arith

spared_store :
    (key k : Text) (s : Stored) (wrote : Bool) (m v : Store Stored)
    → (wrote ≡ false) ⊎ (text_eq key k ≡ false)
    → (v ≡ m) ⊎ ((wrote ≡ true) × (v ≡ insert k s m))
    → lookup key v ≡ lookup key m
spared_store key k s wrote m v spared (inl same) = rw same refl
spared_store key k s wrote m v (inl not_written) (inr (written, added)) =
    absurd (ground (arith, written, not_written))
spared_store key k s wrote m v (inr ne) (inr (written, added)) =
    rw added (lookup-insert_other key k s m ne)

rescue_stores :
    (q : Request) (raw : Text) (w : World)
    → ((rescue q raw w).0.done ≡ w.done) × ((rescue q raw w).0.rows ≡ w.rows)
rescue_stores q raw w = ground arith

finish_keeps :
    (c : Config) (f : FinishFaults) (lock : Bool) (status body now : ℕ) (key k : Text) (w : World)
    → (is_success status ≡ false)
      ⊎ ((text_eq key k ≡ false) × (text_eq (c.digest key) (c.digest k) ≡ false))
    → let v = finish_key c f lock status body now k w in
      (lookup key v.done ≡ lookup key w.done)
      × (lookup (c.digest key) v.rows ≡ lookup (c.digest key) w.rows)
finish_keeps c f lock status body now key k w spared =
    let v = finish_key c f lock status body now k w in
    let s = finish_stores c f lock status body now k w in
    (
      spared_store key k _ (is_success status) w.done v.done (ground (arith, spared)) s.0,
      spared_store (c.digest key) (c.digest k) _ (is_success status) w.rows v.rows
          (ground (arith, spared)) s.1,
    )

step_keeps :
    (c : Config) (e : Step) (key : Text) (w : World)
    → LeavesEntry c key e
    → is_corrupt (lookup key w.done) ≡ false
    → (lookup key (take_step c e w).done ≡ lookup key w.done)
      × (lookup (c.digest key) (take_step c e w).rows ≡ lookup (c.digest key) w.rows)
unfolding take_step begin finish
step_keeps c (begins q raw f now) key w a sane = (
  begin_keeps_done c q f now key (scoped_key q raw) w sane,
  ap (lookup (c.digest key)) (begin_rows c q f now (scoped_key q raw) w),
)
step_keeps c (ends q raw f lock status body now) key w a sane =
    finish_keeps c f lock status body now key (scoped_key q raw) w a
step_keeps c (rescues q raw) key w a sane = (
  ap (lookup key) (rescue_stores q raw w).0,
  ap (lookup (c.digest key)) (rescue_stores q raw w).1,
)
step_keeps c (turns ready) key w a sane = (refl, refl)

pub entries_kept :
    (c : Config) (es : List Step) (key : Text) (w : World)
    → All (LeavesEntry c key) es
    → is_corrupt (lookup key w.done) ≡ false
    → (lookup key (take_steps c es w).done ≡ lookup key w.done)
      × (lookup (c.digest key) (take_steps c es w).rows ≡ lookup (c.digest key) w.rows)
unfolding take_steps
entries_kept c [] key w a sane = (refl, refl)
entries_kept c (e ∷ es) key w a sane =
    let one = step_keeps c e key w a.0 sane in
    let rest = entries_kept c es key (take_step c e w) a.1 (rw one.0 sane) in
    (rest.0 ∙ one.0, rest.1 ∙ one.1)
