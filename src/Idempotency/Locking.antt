-- ===== src/Idempotency/Locking.antt =====
-- The lock on a request in flight.
use helloplanbuddy_cmd_plan.Base.{ℕ, ◌+◌, ◌<◌, ◌≡◌, true, false, none, some, List, arith, All}
use helloplanbuddy_cmd_plan.Base.Text.{Text, lookup, erase, lookup-insert_self, lookup-erase_self}
use helloplanbuddy_cmd_plan.Idempotency.Keys.{Request, scoped_key}
use helloplanbuddy_cmd_plan.Idempotency.Histories.{Step, take_steps, LeavesLock, lock_kept}
use helloplanbuddy_cmd_plan.Idempotency.Requests.{
  World, Config, BeginFaults, FinishFaults, Outcome, replied, conflicted, passed, captured, begin,
  begin_key, finish, finish_key, is_success, lock_ttl_s,
}

captured_locks :
    (c : Config) (q : Request) (f : BeginFaults) (now : ℕ) (key : Text) (w : World)
    → (begin_key c q f now key w).1 ≡ captured true
    → lookup key (begin_key c q f now key w).0.locks ≡ some (now + lock_ttl_s)
unfolding begin_key
captured_locks c q f now key w h = ground (
  arith,
  lookup-insert_self key (now + lock_ttl_s) w.locks,
  lookup-insert_self key (now + lock_ttl_s) (record w { done = erase key w.done }).locks,
)

-- The request is answered without running its handler.
abbrev pub NotRun : Outcome → Type 0
NotRun (replied status body) = Unit
NotRun conflicted = Unit
NotRun passed = ⊥
NotRun (captured lock) = ⊥

locked_out :
    (c : Config) (q : Request) (f : BeginFaults) (now e : ℕ) (key : Text) (w : World)
    → w.redis_ready ≡ true
    → f.lock_fails ≡ false
    → lookup key w.locks ≡ some e
    → now < e
    → NotRun (begin_key c q f now key w).1
unfolding begin_key
locked_out c q f now e key w r l h lt = ground arith

-- When a request took the lock, no other request of the same scoped key is executed for 30 seconds,
-- whatever requests begin, end and are rescued in the meantime, as long as Redis answers and none of this
-- key that took the lock ends or is rescued in between, as a slow earlier one may: it is replayed or
-- refused with a conflict.
pub in_flight_excluded :
    (c : Config) (q p : Request) (raw k : Text) (f g : BeginFaults) (now later : ℕ) (es : List Step)
    (w : World)
    → scoped_key p k ≡ scoped_key q raw
    → (begin c q raw f now w).1 ≡ captured true
    → All (LeavesLock (scoped_key q raw) (now + lock_ttl_s)) es
    → (take_steps c es (begin c q raw f now w).0).redis_ready ≡ true
    → g.lock_fails ≡ false
    → later < now + lock_ttl_s
    → NotRun (begin c p k g later (take_steps c es (begin c q raw f now w).0)).1
unfolding begin
in_flight_excluded c q p raw k f g now later es w same cap spared r l lt =
    let key = scoped_key q raw in
    let v = (begin_key c q f now key w).0 in
    let kept =
      lock_kept c es (now + lock_ttl_s) key v spared (captured_locks c q f now key w cap) in
    rw same (locked_out c p g later (now + lock_ttl_s) key (take_steps c es v) r l kept lt)

-- Nothing is stored for the key.
abbrev pub IsNew : Config → Text → World → Type 0
IsNew c key w = (lookup key w.done ≡ none) × (lookup (c.digest key) w.rows ≡ none)

failed_finish :
    (c : Config) (f : FinishFaults) (status body now : ℕ) (key : Text) (w : World)
    → is_success status ≡ false
    → w.redis_ready ≡ true
    → f.release_fails ≡ false
    → finish_key c f true status body now key w ≡ record w { locks = erase key w.locks }
unfolding finish_key
failed_finish c f status body now key w bad r h = ground arith

free_captures :
    (c : Config) (q : Request) (g : BeginFaults) (now : ℕ) (key : Text) (w : World)
    → IsNew c key w
    → w.redis_ready ≡ true
    → g.lock_fails ≡ false
    → lookup key w.locks ≡ none
    → (begin_key c q g now key w).1 ≡ captured true
unfolding begin_key
free_captures c q g now key w n r l h = ground arith

-- When a request that took the lock answers outside 2xx and Redis answers, the next request of the
-- same scoped key is executed at once, under a lock of its own, whoever had the lock before.
pub failure_retried :
    (c : Config) (q : Request) (raw : Text) (f : FinishFaults) (g : BeginFaults)
    (status body now later : ℕ) (w : World)
    → is_success status ≡ false
    → IsNew c (scoped_key q raw) w
    → w.redis_ready ≡ true
    → f.release_fails ≡ false
    → g.lock_fails ≡ false
    → (begin c q raw g later (finish c q raw f true status body now w)).1 ≡ captured true
unfolding begin finish
failure_retried c q raw f g status body now later w bad n r h l =
    rw (failed_finish c f status body now (scoped_key q raw) w bad r h) (
      free_captures c q g later (scoped_key q raw)
        (record w { locks = erase (scoped_key q raw) w.locks }) n r l
        (lookup-erase_self (scoped_key q raw) w.locks))
