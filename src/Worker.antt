-- ===== src/Worker.antt =====
-- base-worker.js: one poll of a worker, split where it waits for the claim.
use helloplanbuddy_cmd_plan.Base.{
  ℕ, ◌+◌, ◌-◌, ◌*◌, min, Bool, not, ◌&&◌, Option, none, some, List, [], ◌∷◌, leb, ◌==◌,
  if◌then◌else◌, length,
}
use helloplanbuddy_cmd_plan.Queues.{
  QueueKey, batch_size, polling_interval_ms, notify_fallback_poll_ms, rate_limit_enabled,
}
use helloplanbuddy_cmd_plan.Adaptive.{Slot, can_process, on_rate_limited}
use helloplanbuddy_cmd_plan.Engine.Jobs.{Job}
use helloplanbuddy_cmd_plan.Engine.Claim.{Request}
pub mod Slots
pub mod Lifecycle
pub mod Draining

pub record Worker : Type 0 where
  pub key : QueueKey
  pub worker : ℕ
  pub shard_keys : List ℕ
  pub region : ℕ
  pub running : Bool
  pub draining : Bool
  pub active_slots : ℕ
  pub poll_wakeups : ℕ
  pub rate_limit_hits : ℕ

-- The poll timer: `stopped` leaves it alone.
pub data Timer : Type 0 where
  stopped : Timer
  fires_after : ℕ → Timer

-- What a poll does up to the claim.
pub data Asked : Type 0 where
  rests : Timer → Asked
  asks : Request → Asked

-- `_schedulePoll`; a delay other than 0 is replaced by the interval.
unfoldable pub schedule_poll : QueueKey → Bool → ℕ → Timer
schedule_poll key connected delay = fires_after (
    if delay == 0
    then 0
    else (if connected then notify_fallback_poll_ms key else polling_interval_ms key))

-- The controller's row, the worker, and what comes next.
abbrev pub Poll : Type 0
Poll = Slot × Worker × Asked

abbrev pub ask_slots : Bool → Slot → Worker → Poll
ask_slots connected s w =
    if leb s.current w.active_slots
    then (s, w, rests (schedule_poll w.key connected (polling_interval_ms w.key)))
    else (
      s,
      w,
      asks (record {
        key = w.key;
        batch_size = min (s.current - w.active_slots) (batch_size w.key);
        worker = w.worker;
        shard_keys = w.shard_keys;
        region = w.region;
      }),
    )

abbrev pub ask_limit : Bool → Bool → Slot → Worker → Poll
ask_limit connected allowed s w =
    if rate_limit_enabled w.key && not allowed
    then (
      on_rate_limited w.key s,
      record w { rate_limit_hits = w.rate_limit_hits + 1 },
      rests (schedule_poll w.key connected (polling_interval_ms w.key * 3)),
    )
    else ask_slots connected s w

abbrev pub ask_circuit : Bool → Bool → Worker → Slot × Bool → Poll
ask_circuit connected allowed w (s, passes) =
    if passes
    then ask_limit connected allowed s w
    else (s, w, rests (schedule_poll w.key connected (polling_interval_ms w.key * 2)))

-- `_poll` up to `atomicClaim`; `allowed` is what the rate limit answers.
unfoldable pub ask : Bool → Bool → ℕ → Slot → Worker → Poll
ask connected allowed now s w =
    if w.running
    then (if w.draining
        then (s, w, rests (schedule_poll w.key connected (polling_interval_ms w.key)))
        else ask_circuit connected allowed (record w { poll_wakeups = w.poll_wakeups + 1 })
            (can_process w.key now s))
    else (s, w, rests stopped)

-- The rest of `_poll`, with the claim's rows, or `none` if it failed.
unfoldable pub receive : Bool → Request → Option (List Job) → Worker → Worker × Timer
receive connected q none w = (w, schedule_poll w.key connected (polling_interval_ms w.key * 5))
receive connected q (some []) w = (
  w,
  schedule_poll w.key connected
      (if connected then notify_fallback_poll_ms w.key else polling_interval_ms w.key),
)
receive connected q (some (r ∷ rows)) w = (
  record w { active_slots = w.active_slots + length (r ∷ rows) },
  schedule_poll w.key connected (
      if leb q.batch_size (length (r ∷ rows))
      then 0
      else (if connected then notify_fallback_poll_ms w.key else polling_interval_ms w.key)),
)

-- A started item ends.
unfoldable pub end_item : Worker → Worker
end_item w = record w { active_slots = w.active_slots - 1 }
