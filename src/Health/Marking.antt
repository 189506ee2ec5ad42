-- ===== src/Health/Marking.antt =====
-- The repeating jobs and the health of the queues.
use helloplanbuddy_cmd_plan.Base.{
  ℕ, ◌≡◌, refl, Bool, true, false, ◌&&◌, Option, none, some, List, [], ◌∷◌, arith, All,
}
use helloplanbuddy_cmd_plan.Health.{
  State, Mark, redis_connected, redis_disconnected, redis_circuit_open, queue_initialized,
  queue_init_error, scheduler_active, scheduler_heartbeat, scheduler_error, worker_heartbeat,
  worker_error, backlog_updated, mark, red, judge, compute_status, no_errors,
}
use helloplanbuddy_cmd_plan.Health.Silence.{mark_all}
use helloplanbuddy_cmd_plan.Health.Scheduling.{
  Repeating, scheduled, schedule_second, schedule_repeatable_jobs, expiry_sweep, reconciliation_run,
}

abbrev are_queues_ok : State → Bool
are_queues_ok s = s.queues.initialized && no_errors s.queues.init_errors

abbrev is_done : Option ℕ → Bool
is_done none = true
is_done (some e) = false

scheduled_ok {ℓ} :
    {B : Type ℓ} (now : ℕ) (b : B) (s : State) (e : Option ℕ)
    → are_queues_ok (scheduled now b s e).1.0 ≡ is_done (scheduled now b s e).1.1
unfolding mark
scheduled_ok now b s none = refl
scheduled_ok now b s (some e) = refl

second_ok {ℓ} :
    {B : Type ℓ} (upsert : Repeating → B → B × Option ℕ) (now : ℕ) (b : B) (s : State)
    (e : Option ℕ)
    → are_queues_ok (schedule_second upsert now b s e).1.0
      ≡ is_done (schedule_second upsert now b s e).1.1
second_ok upsert now b s none =
    scheduled_ok now (upsert reconciliation_run b).0 s (upsert reconciliation_run b).1
second_ok upsert now b s (some e) = scheduled_ok now b s (some e)

-- After the repeating jobs are scheduled, the queues count as initialized and free of errors exactly if
-- nothing is thrown, whatever the library does and whatever was marked before.
scheduling_marks {ℓ} :
    {B : Type ℓ} (upsert : Repeating → B → B × Option ℕ) (now : ℕ) (b : B) (s : State)
    → are_queues_ok (schedule_repeatable_jobs upsert now b s).1.0
      ≡ is_done (schedule_repeatable_jobs upsert now b s).1.1
unfolding schedule_repeatable_jobs
scheduling_marks upsert now b s =
    second_ok upsert now (upsert expiry_sweep b).0 s (upsert expiry_sweep b).1

-- The marks that config/redis.js and config/queues.js make.
abbrev is_of_config : Mark → Bool
is_of_config redis_connected = true
is_of_config (redis_disconnected e) = true
is_of_config (redis_circuit_open flag) = true
is_of_config queue_initialized = true
is_of_config (queue_init_error e) = true
is_of_config scheduler_active = false
is_of_config scheduler_heartbeat = false
is_of_config (scheduler_error e) = false
is_of_config (worker_heartbeat name active job e) = false
is_of_config (worker_error name e) = false
is_of_config (backlog_updated total worst depth degraded e) = false

mark_workers :
    (m : Mark) (now : ℕ) (s : State) → is_of_config m ≡ true → (mark m now s).workers ≡ s.workers
unfolding mark
mark_workers redis_connected now s h = refl
mark_workers (redis_disconnected e) now s h = refl
mark_workers (redis_circuit_open flag) now s h = refl
mark_workers queue_initialized now s h = refl
mark_workers (queue_init_error e) now s h = refl
mark_workers scheduler_active now s h = refl
mark_workers scheduler_heartbeat now s h = refl
mark_workers (scheduler_error e) now s h = refl
mark_workers (worker_heartbeat name active job e) now s h = cc
mark_workers (worker_error name e) now s h = cc
mark_workers (backlog_updated total worst depth degraded e) now s h = refl

workerless_red :
    (stale warn_depth ts : ℕ) (s : State)
    → s.workers ≡ []
    → (compute_status stale warn_depth ts s).health ≡ red
unfolding compute_status judge
workerless_red stale warn_depth ts s u = rw u (ground arith)

-- In a process in which only the configuration of Redis and of the queues marks the health, a state
-- without workers stays red, whatever they mark and in whatever order.
unmarked_red :
    (stale warn_depth ts : ℕ) (ms : List (Mark × ℕ)) (s : State)
    → All (λ m. is_of_config m.0 ≡ true) ms
    → s.workers ≡ []
    → (compute_status stale warn_depth ts (mark_all ms s)).health ≡ red
unfolding mark_all
unmarked_red stale warn_depth ts [] s h u = workerless_red stale warn_depth ts s u
unmarked_red stale warn_depth ts ((m, now) ∷ ms) s h u =
    unmarked_red stale warn_depth ts ms (mark m now s) h.1 (rw (mark_workers m now s h.0) u)
