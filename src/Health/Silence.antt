-- ===== src/Health/Silence.antt =====
-- What makes the queues healthy, and what a worker that falls silent does to them.
use helloplanbuddy_cmd_plan.Base.{
  ℕ, ◌+◌, ◌<◌, ◌≡◌, refl, ap, ◌∙◌, ◌↔◌, inl, inr, Bool, true, false, not, some, List, [], ◌∷◌,
  arith, Bool-cases, All,
}
use helloplanbuddy_cmd_plan.Base.Text.{Text, Store, lookup, text_eq, lookup-insert_other}
use helloplanbuddy_cmd_plan.Health.{
  Worker, State, Mark, redis_connected, redis_disconnected, redis_circuit_open, queue_initialized,
  queue_init_error, scheduler_active, scheduler_heartbeat, scheduler_error, worker_heartbeat,
  worker_error, backlog_updated, mark, set_worker, is_fresh, worker_fresh, every_fresh, workers_ok,
  red, judge, compute_status, no_errors,
}

-- Marks, each with its time.
unfoldable pub mark_all : List (Mark × ℕ) → State → State
mark_all [] s = s
mark_all ((m, now) ∷ ms) s = mark_all ms (mark m now s)

-- Marks that are not about the worker.
abbrev pub is_about : Text → Mark → Bool
is_about name redis_connected = false
is_about name (redis_disconnected e) = false
is_about name (redis_circuit_open flag) = false
is_about name queue_initialized = false
is_about name (queue_init_error e) = false
is_about name scheduler_active = false
is_about name scheduler_heartbeat = false
is_about name (scheduler_error e) = false
is_about name (worker_heartbeat other active job e) = text_eq name other
is_about name (worker_error other e) = text_eq name other
is_about name (backlog_updated total worst depth degraded e) = false

set_other :
    (k name : Text) (f : Worker → Worker) (s : State)
    → text_eq k name ≡ false
    → lookup k (set_worker name f s).workers ≡ lookup k s.workers
set_other k [] f s h = refl
set_other k (c ∷ name) f s h = lookup-insert_other k (c ∷ name) _ s.workers h

mark_other :
    (name : Text) (m : Mark) (now : ℕ) (s : State)
    → is_about name m ≡ false
    → lookup name (mark m now s).workers ≡ lookup name s.workers
unfolding mark
mark_other name redis_connected now s h = refl
mark_other name (redis_disconnected e) now s h = refl
mark_other name (redis_circuit_open flag) now s h = refl
mark_other name queue_initialized now s h = refl
mark_other name (queue_init_error e) now s h = refl
mark_other name scheduler_active now s h = refl
mark_other name scheduler_heartbeat now s h = refl
mark_other name (scheduler_error e) now s h = refl
mark_other name (worker_heartbeat other active job e) now s h = set_other name other _ s h
mark_other name (worker_error other e) now s h = set_other name other _ s h
mark_other name (backlog_updated total worst depth degraded e) now s h = refl

mark_all_other :
    (name : Text) (ms : List (Mark × ℕ)) (s : State)
    → All (λ m. is_about name m.0 ≡ false) ms
    → lookup name (mark_all ms s).workers ≡ lookup name s.workers
unfolding mark_all
mark_all_other name [] s h = refl
mark_all_other name ((m, now) ∷ ms) s h =
    mark_all_other name ms (mark m now s) h.1 ∙ mark_other name m now s h.0

stale_every :
    (name : Text) (stale ts : ℕ) (w : Worker) (m : Store Worker)
    → lookup name m ≡ some w
    → worker_fresh stale ts w ≡ false
    → every_fresh stale ts m ≡ false
unfolding lookup every_fresh
stale_every name stale ts w [] h f = absurd (ground arith)
stale_every name stale ts w ((other, v) ∷ m) h f = elim (Bool-cases (text_eq name other)) [
  | inl e ↦
      let hit : some v ≡ some w = rw e at h in
      let same : v ≡ w = cc in rw (ap (worker_fresh stale ts) same ∙ f) refl
  | inr e ↦
      let rest : every_fresh stale ts m ≡ false = stale_every name stale ts w m (rw e at h) f in
      rw rest (ground arith)
]

stale_worker :
    (name : Text) (stale ts : ℕ) (w : Worker) (m : Store Worker)
    → lookup name m ≡ some w
    → worker_fresh stale ts w ≡ false
    → workers_ok stale ts m ≡ false
stale_worker name stale ts w [] h f = refl
stale_worker name stale ts w (v ∷ m) h f = stale_every name stale ts w (v ∷ m) h f

judged_red :
    (workers scheduler queues backlog redis : Bool)
    → workers ≡ true
    → ((judge redis workers scheduler queues backlog).health ≡ red)
      × ((judge redis workers scheduler queues backlog).ready ≡ false)
unfolding judge
judged_red workers scheduler queues backlog redis h = (ground arith, ground arith)

-- When a worker that was ever seen sends nothing more, then, whatever else is reported in the
-- meantime, every status computed later than its last heartbeat plus the allowed delay is red and not
-- ready.
pub silent_worker_reds :
    (name : Text) (w : Worker) (beat stale warn_depth ts : ℕ) (ms : List (Mark × ℕ)) (s : State)
    → lookup name s.workers ≡ some w
    → w.last_heartbeat ≡ some beat
    → All (λ m. is_about name m.0 ≡ false) ms
    → beat + stale < ts
    → let status = compute_status stale warn_depth ts (mark_all ms s) in
      (status.health ≡ red) × (status.ready ≡ false)
unfolding compute_status
silent_worker_reds name w beat stale warn_depth ts ms s seen last quiet late =
    let kept : lookup name (mark_all ms s).workers ≡ some w =
      mark_all_other name ms s quiet ∙ seen in
    let old : worker_fresh stale ts w ≡ false = ground arith in
    let bad : workers_ok stale ts (mark_all ms s).workers ≡ false =
      stale_worker name stale ts w (mark_all ms s).workers kept old in
    judged_red _ _ _ _ _ (ap not bad)

empty_list : (es : List ℕ) → no_errors es ≡ true ↔ (es ≡ [])
empty_list [] = (λ h. refl, λ h. refl)
empty_list (e ∷ es) = (λ h. cc, λ h. cc)

-- A status is ready exactly if Redis is connected with its circuit closed, there is a worker and all
-- workers are fresh, the scheduler is fresh, the queues are initialized without errors, and the
-- backlog is neither degraded nor at its warning depth.
pub ready_iff :
    (stale warn_depth ts : ℕ) (s : State)
    → (compute_status stale warn_depth ts s).ready ≡ true ↔ (
        (s.redis.connected ≡ true)
        × (s.redis.circuit_open ≡ false)
        × (workers_ok stale ts s.workers ≡ true)
        × (s.scheduler.active ≡ true)
        × (is_fresh stale ts s.scheduler.last_heartbeat ≡ true)
        × (s.queues.initialized ≡ true)
        × (s.queues.init_errors ≡ [])
        × (s.backlog.degraded ≡ false)
        × (s.backlog.worst_depth < warn_depth))
unfolding compute_status judge
ready_iff stale warn_depth ts s = ground (arith, empty_list s.queues.init_errors)
