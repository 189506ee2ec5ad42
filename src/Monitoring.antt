-- ===== src/Monitoring.antt =====
-- planbuddy_v9/utils/queueMonitoring.js: the depths of the queues. A queue is what its counters answer;
-- names are texts.
use helloplanbuddy_cmd_plan.Base.{
  ℕ, ◌+◌, ◌-◌, ◌/◌, Bool, true, ◌&&◌, Option, none, some, [], ◌∷◌, ltb, leb, ◌==◌, if◌then◌else◌,
}
use helloplanbuddy_cmd_plan.Base.Text.{Text, Store}
pub mod Backlog

abbrev pub queue_depth_warn_threshold : ℕ
queue_depth_warn_threshold = 100

abbrev pub queue_depth_critical_threshold : ℕ
queue_depth_critical_threshold = 1000

-- What a value of the module of queues answers to `getQueueStats`.
pub data Queue : Type 0 where
  -- It is null, or one of its counters throws.
  unreadable : Queue
  -- The counts of waiting, active, delayed, failed and completed jobs; a counter that is missing is 0.
  counted : ℕ → ℕ → ℕ → ℕ → ℕ → Queue

pub record Stats : Type 0 where
  pub pending : ℕ
  pub active : ℕ
  pub delayed : ℕ
  pub failed : ℕ
  pub completed : ℕ
  pub total_depth : ℕ

unfoldable pub get_queue_stats : Queue → Option Stats
get_queue_stats unreadable = none
get_queue_stats (counted waiting active delayed failed completed) = some (record {
  pending = waiting;
  active = active;
  delayed = delayed;
  failed = failed;
  completed = completed;
  total_depth = waiting + active + delayed;
})

abbrev pub with_stats : Text → Option Stats → Store Stats → Store Stats
with_stats name none rest = rest
with_stats name (some s) rest = (name, s) ∷ rest

-- `getAllQueueStats`; the names of the queues differ.
unfoldable pub get_all_queue_stats : Store Queue → Store Stats
get_all_queue_stats [] = []
get_all_queue_stats ((name, q) ∷ qs) = with_stats name (get_queue_stats q) (get_all_queue_stats qs)

-- The alert for a queue.
pub data Alert : Type 0 where
  critical elevated quiet : Alert

unfoldable pub alert : Stats → Alert
alert s =
    if ltb queue_depth_critical_threshold s.pending
    then critical
    else (if ltb queue_depth_warn_threshold s.pending then elevated else quiet)

pub record QueueHealth : Type 0 where
  pub healthy : Bool
  pub total_backlog : ℕ
  pub worst_queue : Option Text
  pub worst_depth : ℕ

-- The loop of `getQueueHealth`, from a total and a worst queue.
unfoldable pub add_up : ℕ → Option Text → ℕ → Store Stats → QueueHealth
add_up total worst depth [] = record {
  healthy = leb total queue_depth_critical_threshold;
  total_backlog = total;
  worst_queue = worst;
  worst_depth = depth;
}
add_up total worst depth ((name, s) ∷ m) =
    let deeper = ltb depth s.pending in
    add_up (total + s.pending) (if deeper then some name else worst)
      (if deeper then s.pending else depth) m

abbrev pub monitoring_unavailable : QueueHealth
monitoring_unavailable = record {
  healthy = true;
  total_backlog = 0;
  worst_queue = none;
  worst_depth = 0;
}

-- `getQueueHealth`; `throws` is of the collection, as in the registering of a metric.
unfoldable pub get_queue_health : Bool → Store Queue → QueueHealth
get_queue_health throws qs =
    if throws then monitoring_unavailable else add_up 0 none 0 (get_all_queue_stats qs)

-- healthController.js: `production`, of the numbers of the last snapshot, with a timestamp that
-- is not later than now. The age in seconds is rounded.
pub record Metrics : Type 0 where
  pub integrity_mismatches : ℕ
  pub dlq_active : ℕ
  pub timestamp : ℕ

pub record Production : Type 0 where
  pub is_healthy : Bool
  pub integrity_ok : Bool
  pub dlq_empty : Bool
  pub last_check_age_sec : ℕ

unfoldable pub production : ℕ → Option Metrics → Production
production now none = record {
  is_healthy = true;
  integrity_ok = true;
  dlq_empty = true;
  last_check_age_sec = 0;
}
production now (some m) = record {
  is_healthy = m.integrity_mismatches == 0 && m.dlq_active == 0;
  integrity_ok = m.integrity_mismatches == 0;
  dlq_empty = m.dlq_active == 0;
  last_check_age_sec = (now - m.timestamp + 500) / 1000;
}
