-- ===== src/Idempotency/Replay.antt =====
-- A completed request is answered from its stored response.
use helloplanbuddy_cmd_plan.Base.{
  ℕ, ◌+◌, ◌≤◌, ◌<◌, ◌≡◌, refl, ◌∙◌, ◌⊎◌, inl, inr, Bool, true, false, not, ◌&&◌, Option, none, some,
  List, arith, if◌then◌else◌, All,
}
use helloplanbuddy_cmd_plan.Base.Text.{Text, lookup, lookup-insert_self}
use helloplanbuddy_cmd_plan.Idempotency.Keys.{Request, scoped_key}
use helloplanbuddy_cmd_plan.Idempotency.Histories.{Step, take_steps}
use helloplanbuddy_cmd_plan.Idempotency.Entries.{is_corrupt, LeavesEntry, entries_kept}
use helloplanbuddy_cmd_plan.Idempotency.Requests.{
  Saved, good, Stored, World, Config, BeginFaults, FinishFaults, replied, captured, begin,
  begin_key, finish, finish_key, is_success, upsert,
}

abbrev pub entry : ℕ → ℕ → ℕ → Stored
entry status body expires = record { saved = good status body; expires = expires }

saved_row :
    (c : Config) (f : FinishFaults) (lock : Bool) (status body now : ℕ) (key : Text) (w : World)
    → is_success status ≡ true
    → f.row_fails ≡ false
    → lookup (c.digest key) w.rows ≡ none
    → lookup (c.digest key) (finish_key c f lock status body now key w).rows
      ≡ some (entry status body (now + c.ttl_s))
unfolding finish_key
saved_row c f lock status body now key w ok works fresh =
    ground (arith, lookup-insert_self (c.digest key) (entry status body (now + c.ttl_s)) w.rows)

saved_cache :
    (c : Config) (f : FinishFaults) (lock : Bool) (status body now : ℕ) (key : Text) (w : World)
    → is_success status ≡ true
    → lookup key w.done ≡ none
    → let d = lookup key (finish_key c f lock status body now key w).done in
      ((d ≡ none) ⊎ (d ≡ some (entry status body (now + c.ttl_s))))
      × (lock ≡ true
          → w.redis_ready ≡ true
          → f.cache_fails ≡ false
          → d ≡ some (entry status body (now + c.ttl_s)))
unfolding finish_key
saved_cache c f lock status body now key w ok fresh = (
  ground (arith, lookup-insert_self key (entry status body (now + c.ttl_s)) w.done),
  λ l r e. ground (arith, lookup-insert_self key (entry status body (now + c.ttl_s)) w.done),
)

-- Where the response was stored, and what a later request can read.
abbrev Served : Config → FinishFaults → Bool → World → BeginFaults → World → Type 0
Served c f lock w g v =
    ((f.row_fails ≡ false) × (g.row_fails ≡ false))
    ⊎ ((lock ≡ true)
        × (w.redis_ready ≡ true)
        × (f.cache_fails ≡ false)
        × (v.redis_ready ≡ true)
        × (g.get_fails ≡ false))

serve_cache :
    (c : Config) (q : Request) (g : BeginFaults) (now status body e : ℕ) (key : Text) (v : World)
    → v.redis_ready ≡ true
    → g.get_fails ≡ false
    → lookup key v.done ≡ some (entry status body e)
    → now < e
    → (begin_key c q g now key v).1 ≡ replied status body
unfolding begin_key
serve_cache c q g now status body e key v r d h lt = ground arith

serve_row :
    (c : Config) (q : Request) (g : BeginFaults) (now status body e : ℕ) (key : Text) (v : World)
    → (lookup key v.done ≡ none) ⊎ (lookup key v.done ≡ some (entry status body e))
    → g.row_fails ≡ false
    → lookup (c.digest key) v.rows ≡ some (entry status body e)
    → now < e
    → (begin_key c q g now key v).1 ≡ replied status body
unfolding begin_key
serve_row c q g now status body e key v d r h lt = ground arith

replayed_key :
    (c : Config) (q : Request) (f : FinishFaults) (g : BeginFaults) (lock : Bool)
    (status body now later : ℕ) (key : Text) (w v : World)
    → is_success status ≡ true
    → lookup key w.done ≡ none
    → lookup (c.digest key) w.rows ≡ none
    → lookup key v.done ≡ lookup key (finish_key c f lock status body now key w).done
    → lookup (c.digest key) v.rows
      ≡ lookup (c.digest key) (finish_key c f lock status body now key w).rows
    → Served c f lock w g v
    → later < now + c.ttl_s
    → (begin_key c q g later key v).1 ≡ replied status body
replayed_key c q f g lock status body now later key w v ok fd fr sd sr (inl (fw, gr)) lt =
    serve_row c q g later status body (now + c.ttl_s) key v
      (rw sd (saved_cache c f lock status body now key w ok fd).0) gr
      (sr ∙ saved_row c f lock status body now key w ok fw fr) lt
replayed_key c q f g lock status body now later key w v ok fd fr sd sr (inr (l, r, fc, vr, gg)) lt =
    serve_cache c q g later status body (now + c.ttl_s) key v vr gg
      (sd ∙ (saved_cache c f lock status body now key w ok fd).1 l r fc) lt

good_entry :
    {status body e : ℕ} (o : Option Stored)
    → (o ≡ none) ⊎ (o ≡ some (entry status body e))
    → is_corrupt o ≡ false
good_entry o (inl h) = rw h refl
good_entry o (inr h) = rw h refl

-- When a captured request for whose key nothing is stored, not even an expired row, answers with a 2xx status, every later
-- request of the same scoped key is answered with the same status and body, and is not executed,
-- until the response expires: if the table could be written and can be read, or Redis could and can.
-- In between requests may begin, end and be rescued in any order, but none of this key ends with a 2xx
-- status, as one that began when the lock ran out would, and none ends so whose digest is the same.
pub success_replayed :
    (c : Config) (q p : Request) (raw k : Text) (f : FinishFaults) (g : BeginFaults) (lock : Bool)
    (status body now later : ℕ) (es : List Step) (w : World)
    → scoped_key p k ≡ scoped_key q raw
    → is_success status ≡ true
    → lookup (scoped_key q raw) w.done ≡ none
    → lookup (c.digest (scoped_key q raw)) w.rows ≡ none
    → All (LeavesEntry c (scoped_key q raw)) es
    → Served c f lock w g (take_steps c es (finish c q raw f lock status body now w))
    → later < now + c.ttl_s
    → (begin c p k g later (take_steps c es (finish c q raw f lock status body now w))).1
      ≡ replied status body
unfolding begin finish
success_replayed c q p raw k f g lock status body now later es w same ok fd fr spared s lt =
    let key = scoped_key q raw in
    let u = finish_key c f lock status body now key w in
    let sane = good_entry _ (saved_cache c f lock status body now key w ok fd).0 in
    let kept = entries_kept c es key u spared sane in
    rw same (
      replayed_key c p f g lock status body now later key w (take_steps c es u) ok fd fr kept.0
        kept.1 s lt)

row_kept :
    (c : Config) (f : FinishFaults) (status body now e : ℕ) (old : Saved) (key : Text) (w : World)
    → lookup (c.digest key) w.rows ≡ some (record { saved = old; expires = e })
    → lookup (c.digest key) (finish_key c f false status body now key w).rows
      ≡ some (record {
        saved = if is_success status && not f.row_fails then good status body else old;
        expires = e;
      })
unfolding finish_key
row_kept c f status body now e old key w h = ground (
  arith,
  h,
  lookup-insert_self (c.digest key)
      (upsert (lookup (c.digest key) w.rows) (good status body) (now + c.ttl_s)) w.rows,
)

redis_kept :
    (c : Config) (f : FinishFaults) (status body now : ℕ) (key : Text) (w : World)
    → (finish_key c f false status body now key w).redis_ready ≡ w.redis_ready
unfolding finish_key
redis_kept c f status body now key w = ground arith

dead_row_executes :
    (c : Config) (q : Request) (g : BeginFaults) (later e : ℕ) (s : Saved) (key : Text) (v : World)
    → v.redis_ready ≡ false
    → lookup (c.digest key) v.rows ≡ some (record { saved = s; expires = e })
    → e ≤ later
    → (begin_key c q g later key v).1 ≡ captured false
unfolding begin_key
dead_row_executes c q g later e s key v r h le = ground arith

-- A row that has expired is never renewed: while Redis is not ready, the answer of a request that ran
-- on it is stored with the old expiry, and the next request of the same key is executed again.
pub dead_row_runs_again :
    (c : Config) (q : Request) (raw : Text) (f : FinishFaults) (g : BeginFaults)
    (status body now later e : ℕ) (old : Saved) (w : World)
    → w.redis_ready ≡ false
    → lookup (c.digest (scoped_key q raw)) w.rows ≡ some (record { saved = old; expires = e })
    → e ≤ later
    → (begin c q raw g later (finish c q raw f false status body now w)).1 ≡ captured false
unfolding begin finish
dead_row_runs_again c q raw f g status body now later e old w r h le =
    dead_row_executes c q g later e _ (scoped_key q raw)
      (finish_key c f false status body now (scoped_key q raw) w)
      (redis_kept c f status body now (scoped_key q raw) w ∙ r)
      (row_kept c f status body now e old (scoped_key q raw) w h) le
