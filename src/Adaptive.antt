-- ===== src/Adaptive.antt =====
-- adaptive-controller.js: the adaptive concurrency controller with its circuit breaker. The source
-- keeps nine dictionaries indexed by queue key, and every method touches the entries of its own
-- key only: `Slot` is one such row, and `Controller` the rows of all keys. Time is an argument.
pub mod Bounds
pub mod Transitions
pub mod Probing
use helloplanbuddy_cmd_plan.Base.{
  ℕ, ◌+◌, ◌/◌, ◌%◌, min, max, Bool, true, false, Option, none, some, List, [], ◌∷◌, leb, ◌==◌,
  if◌then◌else◌,
}
use helloplanbuddy_cmd_plan.Queues.{
  QueueKey, concurrency, concurrency_min, concurrency_max, failure_threshold, open_timeout_ms,
  probe_count,
}

pub data Circuit : Type 0 where
  closed open_circuit half_open : Circuit

pub record Slot : Type 0 where
  pub circuit : Circuit
  pub failures : ℕ
  pub rate_limits : ℕ
  pub opened_at : Option ℕ
  pub probes : ℕ
  pub probe_successes : ℕ
  pub current : ℕ
  pub streak : ℕ
  pub draining : Bool

-- The constructor's row for one key.
unfoldable pub init : QueueKey → Slot
init key = record {
  circuit = closed;
  failures = 0;
  rate_limits = 0;
  opened_at = none;
  probes = 0;
  probe_successes = 0;
  current = concurrency key;
  streak = 0;
  draining = false;
}

abbrev pub or_zero : Option ℕ → ℕ
or_zero none = 0
or_zero (some t) = t

-- `_openCircuit`
abbrev pub open_slot : ℕ → Slot → Slot
open_slot now s = record s { circuit = open_circuit; opened_at = some now }

-- `elapsed >= timeout`, with `elapsed` possibly negative, is `openedAt + timeout <= now`.
abbrev pub to_half_open : QueueKey → ℕ → Slot → Circuit → Slot
to_half_open key now s open_circuit =
    if leb (or_zero s.opened_at + open_timeout_ms key) now
    then record s { circuit = half_open; probes = 0; probe_successes = 0 }
    else s
to_half_open key now s closed = s
to_half_open key now s half_open = s

-- `_maybeTransitionToHalfOpen`
unfoldable pub maybe_half_open : QueueKey → ℕ → Slot → Slot
maybe_half_open key now s = to_half_open key now s s.circuit

-- `_closeCircuit`: slow start from a quarter of the initial concurrency.
unfoldable pub close_slot : QueueKey → Slot → Slot
close_slot key s = record s {
  circuit = closed;
  failures = 0;
  opened_at = none;
  probes = 0;
  probe_successes = 0;
  current = max (concurrency_min key) (concurrency key / 4);
  streak = 0;
}

-- `_increaseConcurrency`
unfoldable pub increase : QueueKey → Slot → Slot
increase key s =
    if s.draining then s else record s { current = min (s.current + 1) (concurrency_max key) }

-- `_decreaseConcurrency`
unfoldable pub decrease : QueueKey → Slot → Slot
decrease key s = record s { current = max (s.current / 2) (concurrency_min key) }

abbrev pub admit : QueueKey → Slot → Circuit → Slot × Bool
admit key s open_circuit = (s, false)
admit key s half_open =
    if leb (probe_count key) s.probes
    then (s, false)
    else (record s { probes = s.probes + 1 }, true)
admit key s closed = (s, true)

-- `canProcess`
unfoldable pub can_process : QueueKey → ℕ → Slot → Slot × Bool
unfolding maybe_half_open
can_process key now s = admit key (maybe_half_open key now s) (maybe_half_open key now s).circuit

abbrev pub count_probe : QueueKey → Slot → Circuit → Slot
count_probe key s half_open =
    let t = record s { probe_successes = s.probe_successes + 1 } in
    if leb (probe_count key) (s.probe_successes + 1) then close_slot key t else t
count_probe key s closed = s
count_probe key s open_circuit = s

abbrev pub grow : QueueKey → Slot → Slot
grow key s =
    let t = record s { streak = s.streak + 1 } in
    if (s.streak + 1) % 20 == 0 then increase key t else t

-- `onSuccess`
unfoldable pub on_success : QueueKey → Slot → Slot
unfolding close_slot increase
on_success key s =
    let t = record s { failures = 0; rate_limits = 0 } in grow key (count_probe key t s.circuit)

abbrev pub is_open : Circuit → Bool
is_open open_circuit = true
is_open closed = false
is_open half_open = false

abbrev pub trip : QueueKey → ℕ → Slot → Slot
trip key now s =
    if leb (failure_threshold key) s.failures
    then if is_open s.circuit then s else open_slot now s
    else s

-- `onFailure`
unfoldable pub on_failure : QueueKey → ℕ → Slot → Slot
unfolding decrease
on_failure key now s =
    decrease key (trip key now (record s { streak = 0; failures = s.failures + 1 }))

-- `onRateLimited`
unfoldable pub on_rate_limited : QueueKey → Slot → Slot
unfolding decrease
on_rate_limited key s =
    let hits = s.rate_limits + 1 in
    let t = record s { streak = 0; rate_limits = hits } in
    decrease key (if leb 3 hits then record t { failures = s.failures + 1 } else t)

-- `setDraining`
unfoldable pub set_draining : QueueKey → Bool → Slot → Slot
set_draining key flag s =
    let t = record s { draining = flag } in
    if flag then record t { current = concurrency_min key } else t

-- The calls that a worker makes, with the time at which each is made.
pub data Call : Type 0 where
  polls failed_at : ℕ → Call
  succeeded rate_limited : Call
  drains : Bool → Call

unfoldable pub step : QueueKey → Slot → Call → Slot
unfolding can_process on_success on_failure on_rate_limited set_draining
step key s (polls now) = (can_process key now s).0
step key s (failed_at now) = on_failure key now s
step key s succeeded = on_success key s
step key s rate_limited = on_rate_limited key s
step key s (drains flag) = set_draining key flag s

unfoldable pub run : QueueKey → Slot → List Call → Slot
run key s [] = s
run key s (c ∷ cs) = run key (step key s c) cs

-- How many of the polls in a history were let through.
unfoldable pub admitted : QueueKey → Slot → List Call → ℕ
admitted key s [] = 0
admitted key s (polls now ∷ cs) =
    (if (can_process key now s).1 then 1 else 0) + admitted key (step key s (polls now)) cs
admitted key s (c ∷ cs) = admitted key (step key s c) cs
