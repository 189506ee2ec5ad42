-- ===== src/Notify.antt =====
-- notify-listener.js: the wakeups of workers by the database. Tables with their shards are numbers that
-- are only compared, and times are in milliseconds.
use helloplanbuddy_cmd_plan.Base.{
  ℕ, ◌+◌, ◌-◌, ◌*◌, ◌^◌, min, Bool, true, false, ◌||◌, Option, none, some, List, [], ◌∷◌, ltb, ◌==◌,
  if◌then◌else◌,
}
pub mod Alive

abbrev pub reconnect_base_ms : ℕ
reconnect_base_ms = 500

abbrev pub reconnect_max_ms : ℕ
reconnect_max_ms = 30000

-- The listener; `connecting` is the calls of `_connect` under way, `reconnects_in` the delay of the timer
-- that is set, `debounced` the keys whose timers run, and `woken` the wakeups that were emitted.
pub record Listener : Type 0 where
  pub is_connected : Bool
  pub connecting : ℕ
  pub reconnects_in : Option ℕ
  pub reconnect_count : ℕ
  pub debounced : List ℕ
  pub woken : List ℕ
  pub stopping : Bool

abbrev pub initial : Listener
initial = record {
  is_connected = false;
  connecting = 0;
  reconnects_in = none;
  reconnect_count = 0;
  debounced = [];
  woken = [];
  stopping = false;
}

-- `RECONNECT_BASE_MS * 2 ** this._reconnectCount`, at most `RECONNECT_MAX_MS`
unfoldable pub reconnect_delay : ℕ → ℕ
reconnect_delay count = min (reconnect_base_ms * 2 ^ count) reconnect_max_ms

abbrev pub is_set : Option ℕ → Bool
is_set none = false
is_set (some delay) = true

-- `_scheduleReconnect`
unfoldable pub schedule_reconnect : Listener → Listener
schedule_reconnect l = if l.stopping || is_set l.reconnects_in then l else record l {
  reconnects_in = some (reconnect_delay l.reconnect_count);
  reconnect_count = l.reconnect_count + 1;
}

-- `_connect`, up to its first wait, and its two ends.
unfoldable pub connect : Listener → Listener
connect l = if l.stopping then l else record l { connecting = l.connecting + 1 }

unfoldable pub connect_succeeds : Listener → Listener
connect_succeeds l =
    if ltb 0 l.connecting
    then record l { connecting = l.connecting - 1; is_connected = true; reconnect_count = 0 }
    else l

unfoldable pub connect_fails : Listener → Listener
connect_fails l =
    if ltb 0 l.connecting
    then schedule_reconnect (record l { connecting = l.connecting - 1 })
    else l

-- The timer of `_scheduleReconnect`.
unfoldable pub reconnect : Listener → Listener
reconnect l = if is_set l.reconnects_in then connect (record l { reconnects_in = none }) else l

-- `_onError`
unfoldable pub on_error : Listener → Listener
on_error l = schedule_reconnect (record l { is_connected = false })

-- `_onEnd`
unfoldable pub on_end : Listener → Listener
on_end l = if l.stopping then l else schedule_reconnect (record l { is_connected = false })

unfoldable pub has_key : ℕ → List ℕ → Bool
has_key key [] = false
has_key key (k ∷ ks) = k == key || has_key key ks

unfoldable pub remove_key : ℕ → List ℕ → List ℕ
remove_key key [] = []
remove_key key (k ∷ ks) = let rest = remove_key key ks in if k == key then rest else k ∷ rest

-- `_onNotification`, on the channel.
unfoldable pub on_notification : ℕ → Listener → Listener
on_notification key l =
    if has_key key l.debounced then l else record l { debounced = key ∷ l.debounced }

-- Its timer.
unfoldable pub wake_up : ℕ → Listener → Listener
wake_up key l =
    if has_key key l.debounced
    then record l { debounced = remove_key key l.debounced; woken = key ∷ l.woken }
    else l

-- `stop`, which removes the listeners of the wakeups.
unfoldable pub stop : Listener → Listener
stop l = record l { stopping = true; reconnects_in = none }
