-- ===== src/Redis.antt =====
-- planbuddy_v9/config/redis.js: the circuit of reconnections and the probe of the two clients.
-- planbuddy_v9/config/rateLimitRedis.js: the strategy of the third. Times are in milliseconds; the random
-- draw of the jitter is a fraction k / n below 1, and what is computed from it is exact.
use helloplanbuddy_cmd_plan.Base.{
  ℕ, ◌+◌, ◌*◌, ◌/◌, ◌^◌, min, Bool, true, false, ◌&&◌, Option, none, some, List, [], ◌∷◌, ltb, leb,
  if◌then◌else◌,
}
pub mod Reconnecting

-- The settings, with their defaults.
abbrev pub max_reconnect_attempts : ℕ
max_reconnect_attempts = 20

abbrev pub circuit_breaker_cooldown_ms : ℕ
circuit_breaker_cooldown_ms = 60000

abbrev pub base_retry_ms : ℕ
base_retry_ms = 100

abbrev pub max_retry_ms : ℕ
max_retry_ms = 30000

-- The entry of a client in `circuitState`.
pub record Circuit : Type 0 where
  pub open_since : Option ℕ
  pub attempts_since_open : ℕ

abbrev pub closed : Circuit
closed = record { open_since = none; attempts_since_open = 0 }

-- `isCircuitOpen`, with the entry that it leaves.
abbrev pub check_circuit : ℕ → Circuit → Option ℕ → Circuit × Bool
check_circuit now s none = (s, false)
check_circuit now s (some since) =
    if leb (since + circuit_breaker_cooldown_ms) now then (closed, false) else (s, true)

unfoldable pub is_circuit_open : ℕ → Circuit → Circuit × Bool
is_circuit_open now s = check_circuit now s s.open_since

-- `tripCircuit`
abbrev pub trip_circuit : ℕ → Circuit
trip_circuit now = record { open_since = some now; attempts_since_open = 0 }

-- `recordAttempt`
unfoldable pub record_attempt : Bool → ℕ → Circuit → Circuit
record_attempt success now s =
    if success
    then record s { attempts_since_open = 0 }
    else (let n = s.attempts_since_open + 1 in
        if leb max_reconnect_attempts n
        then trip_circuit now
        else record s { attempts_since_open = n })

-- The delay before the jitter, and with it.
unfoldable pub backoff : ℕ → ℕ
backoff retries = min (base_retry_ms * 2 ^ retries) max_retry_ms

unfoldable pub jittered : ℕ → ℕ → ℕ → ℕ
jittered delay k n = delay * (3 * n + 2 * k) / (4 * n)

-- `reconnectStrategy`, with the state that it leaves; none stops the client.
unfoldable pub reconnect_strategy : ℕ → ℕ → ℕ → ℕ → Circuit → Circuit × Option ℕ
reconnect_strategy retries k n now s =
    let c = is_circuit_open now s in
    (c.0, if c.1 then none else some (jittered (backoff retries) k n))

-- A client: its circuit, the losses since it was ready, and whether the library has given up.
pub record Client : Type 0 where
  pub circuit : Circuit
  pub retries : ℕ
  pub is_ended : Bool

-- The events of a client. When its connection is lost, or could not be made, the library asks for a
-- delay, and emits 'end' or 'reconnecting'.
pub data Event : Type 0 where
  connects becomes_ready : Event
  -- The time and the draw.
  loses : ℕ → ℕ → ℕ → Event

abbrev pub after_strategy : ℕ → Client → Circuit × Option ℕ → Client
after_strategy now c (s, none) = record c { circuit = s; is_ended = true }
after_strategy now c (s, some delay) = record c {
  circuit = record_attempt false now s;
  retries = c.retries + 1;
}

-- The handlers of `createClient`, with the calls that the library makes.
unfoldable pub handle : Event → Client → Client
handle connects c = if c.is_ended then c else record c { circuit = record_attempt true 0 c.circuit }
handle becomes_ready c = if c.is_ended then c else record c { retries = 0 }
handle (loses now k n) c =
    if c.is_ended
    then c
    else after_strategy now c (reconnect_strategy (c.retries + 1) k n now c.circuit)

unfoldable pub handle_all : List Event → Client → Client
handle_all [] c = c
handle_all (e ∷ es) c = handle_all es (handle e c)

-- `retryStrategy` of the client of the rate limits; none stops it.
unfoldable pub retry_strategy : ℕ → Option ℕ
retry_strategy times = if ltb 10 times then none else some (min (100 * 2 ^ times) 10000)

-- The answer of a probe: PONG, another text, or an error.
pub data Ping : Type 0 where
  pong unexpected throws : Ping

pub data Condition : Type 0 where
  ok error down : Condition

-- The probe of one client, given whether it is ready.
unfoldable pub check_client : Bool → Ping → Condition
check_client false p = down
check_client true pong = ok
check_client true unexpected = error
check_client true throws = error

pub record Health : Type 0 where
  pub is_ok : Bool
  pub redis : Condition
  pub redis_queue : Condition

abbrev pub is_ok_condition : Condition → Bool
is_ok_condition ok = true
is_ok_condition error = false
is_ok_condition down = false

-- `isHealthy`
unfoldable pub is_healthy : Bool → Ping → Bool → Ping → Health
is_healthy cache_ready cache queue_ready queue =
    let a = check_client cache_ready cache in
    let b = check_client queue_ready queue in
    record { is_ok = is_ok_condition a && is_ok_condition b; redis = a; redis_queue = b }
