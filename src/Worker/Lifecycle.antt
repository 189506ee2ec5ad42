-- ===== src/Worker/Lifecycle.antt =====
-- base-worker.js: start, drain and stop of a worker, the end of an item, and its heartbeat row.
use helloplanbuddy_cmd_plan.Base.{
  ℕ, ◌+◌, Bool, true, false, not, ◌&&◌, ◌||◌, Option, none, some, List, [], ◌∷◌, ltb, ◌==◌,
  if◌then◌else◌,
}
use helloplanbuddy_cmd_plan.Adaptive.{Slot, on_success, on_failure, set_draining}
use helloplanbuddy_cmd_plan.Engine.Claim.{contains}
use helloplanbuddy_cmd_plan.Engine.Jobs.{Job, Failure, Draw, commit_success, commit_failure}
use helloplanbuddy_cmd_plan.Shards.{compute_worker_shards}
use helloplanbuddy_cmd_plan.Worker.{Worker, Timer, fires_after, end_item}

-- A row of worker_heartbeats.
pub record Heartbeat : Type 0 where
  pub worker : ℕ
  pub region : ℕ
  pub last_heartbeat : ℕ
  pub active_jobs : ℕ
  pub drain_requested : Bool

unfoldable pub on_row : ℕ → (Heartbeat → Heartbeat) → List Heartbeat → List Heartbeat
on_row id change [] = []
on_row id change (h ∷ t) =
    let rest = on_row id change t in if h.worker == id then change h ∷ rest else h ∷ rest

unfoldable pub has_row : ℕ → List Heartbeat → Bool
has_row id [] = false
has_row id (h ∷ t) = h.worker == id || has_row id t

-- `_registerHeartbeat`
unfoldable pub register_heartbeat : Worker → ℕ → List Heartbeat → List Heartbeat
register_heartbeat w now t =
    if has_row w.worker t
    then on_row w.worker
        (λ h. record h { last_heartbeat = now; active_jobs = 0; region = w.region }) t
    else record {
      worker = w.worker;
      region = w.region;
      last_heartbeat = now;
      active_jobs = 0;
      drain_requested = false;
    }
      ∷ t

-- Its timer.
unfoldable pub refresh_heartbeat : Worker → ℕ → List Heartbeat → List Heartbeat
refresh_heartbeat w now t =
    on_row w.worker
      (λ h. record h {
        last_heartbeat = now;
        active_jobs = w.active_slots;
        drain_requested = w.draining;
      })
      t

-- `_deregisterHeartbeat`
unfoldable pub deregister_heartbeat : ℕ → List Heartbeat → List Heartbeat
deregister_heartbeat id [] = []
deregister_heartbeat id (h ∷ t) =
    let rest = deregister_heartbeat id t in if h.worker == id then rest else h ∷ rest

-- `requestWorkerDrain` of atomic-engine.js.
unfoldable pub request_worker_drain : ℕ → List Heartbeat → List Heartbeat
request_worker_drain id t = on_row id (λ h. record h { drain_requested = true }) t

-- The rest of a worker's state: the counters, and the promises of `_drain` that wait or are resolved.
pub record Running : Type 0 where
  pub worker : Worker
  pub notify_wakeups : ℕ
  pub items_processed : ℕ
  pub items_failed : ℕ
  pub waiting_drains : ℕ
  pub resolved_drains : ℕ

-- `start`, up to its timers, with the worker's index and the number of workers.
unfoldable pub start : ℕ → ℕ → Running → Running
start index workers r = if r.worker.running then r else record r {
  worker = record r.worker {
    running = true;
    shard_keys = compute_worker_shards index workers r.worker.key;
  };
}

-- `drain`, with the controller's row and the heartbeats.
unfoldable pub drain : Slot → List Heartbeat → Running → (Slot × List Heartbeat) × Running
drain s t r = if r.worker.draining then ((s, t), r) else (
  (set_draining r.worker.key true s, request_worker_drain r.worker.worker t),
  record r { worker = record r.worker { draining = true } },
)

-- `_drain`
unfoldable pub await_drain : Running → Running
await_drain r =
    if r.worker.active_slots == 0
    then record r { resolved_drains = r.resolved_drains + 1 }
    else record r { waiting_drains = r.waiting_drains + 1 }

-- `stop`, up to the wait for its drain.
unfoldable pub stop : Running → Running
stop r = await_drain (record r { worker = record r.worker { running = false } })

-- `_notifyDrainIfIdle`
unfoldable pub notify_drain_if_idle : Running → Running
notify_drain_if_idle r =
    if r.worker.active_slots == 0 && ltb 0 r.waiting_drains
    then record r { resolved_drains = r.resolved_drains + r.waiting_drains; waiting_drains = 0 }
    else r

-- `_matchesWakeup`: whether the table is the worker's, and the shard, if there is one.
unfoldable pub matches_wakeup : Bool → Option ℕ → Worker → Bool
matches_wakeup same_table none w = same_table
matches_wakeup same_table (some shard) w = same_table && contains w.shard_keys shard

-- `_triggerImmediatePoll`, with the timer so far.
unfoldable pub trigger_immediate_poll : Worker → Timer → Timer
trigger_immediate_poll w timer = if not w.running || w.draining then timer else fires_after 0

-- The handler of `wakeup`.
unfoldable pub on_wakeup : Bool → Option ℕ → Running → Timer → Running × Timer
on_wakeup same_table shard r timer =
    if matches_wakeup same_table shard r.worker
    then (record r { notify_wakeups = r.notify_wakeups + 1 }, trigger_immediate_poll r.worker timer)
    else (r, timer)

-- How `processItem` ends, and whether the commit behind it throws.
pub data Ending : Type 0 where
  succeeds : Option ℕ → Ending
  -- The item is processed, but the commit throws this error.
  loses_commit : Failure → Ending
  throws : Failure → Ending

-- The job table, the controller's row and the worker.
pub record World : Type 0 where
  pub jobs : List Job
  pub slot : Slot
  pub running : Running

abbrev pub fail_item : Job → Draw → ℕ → Failure → Bool → World → World
fail_item job d now f commit_throws x =
    let w = x.running.worker in
    let r = record x.running { items_failed = x.running.items_failed + 1 } in
    if commit_throws then record x { running = r } else record {
      jobs = commit_failure w.key job.id w.worker job.lease_version d now f x.jobs;
      slot = on_failure w.key now x.slot;
      running = r;
    }

-- `_executeItem` from the end of `processItem` on; `commit_throws` is a failure of `commitFailure`.
unfoldable pub execute_item : Job → Draw → ℕ → Ending → Bool → World → World
execute_item job d now (succeeds result) commit_throws x =
    let w = x.running.worker in
    record {
      jobs = commit_success job.id w.worker job.lease_version result now x.jobs;
      slot = on_success w.key x.slot;
      running = record x.running { items_processed = x.running.items_processed + 1 };
    }
execute_item job d now (loses_commit f) commit_throws x = fail_item job d now f commit_throws x
execute_item job d now (throws f) commit_throws x = fail_item job d now f commit_throws x

-- With its `finally`, which also runs when `commitFailure` throws. Nothing handles the promise that is then
-- rejected, so the process ends after it.
unfoldable pub end_execution : Job → Draw → ℕ → Ending → Bool → World → World
end_execution job d now ending commit_throws x =
    let y = execute_item job d now ending commit_throws x in
    record y {
      running = notify_drain_if_idle (record y.running { worker = end_item y.running.worker });
    }
