-- ===== src/Server/Startup.antt =====
-- server.js: `verifyDependencies` and `start`. Times are in milliseconds.
use helloplanbuddy_cmd_plan.Base.{
  ℕ, ◌+◌, ◌≤◌, ◌<◌, min, ◌≡◌, refl, ◌≢◌, ◌↔◌, Bool, true, false, not, ◌||◌, Option, none, some,
  arith, ltb, ◌==◌, if◌then◌else◌,
}

-- What a call that is awaited does, and after how long.
pub data Call : Type 0 where
  resolves : ℕ → Call
  rejects : ℕ → Call
  hangs : Call

abbrev pub check_timeout : ℕ
check_timeout = 5000

-- `Promise.race` of a check with the timer: whether it is passed, and the time until that is known.
unfoldable pub passes : Call → Bool
passes (resolves t) = ltb t check_timeout
passes (rejects t) = false
passes hangs = false

unfoldable pub check_time : Call → ℕ
check_time (resolves t) = min t check_timeout
check_time (rejects t) = min t check_timeout
check_time hangs = check_timeout

-- The three checks; `redis` is missing if the module does not export it.
pub record Dependencies : Type 0 where
  pub database : Call
  pub redis : Option Call
  pub rate_limit_redis : Call

-- The failure of a check that is tolerated outside production.
abbrev pub tolerated : Bool → Bool → Bool
tolerated is_prod passed = passed || not is_prod

abbrev pub redis_passes : Option Call → Bool
redis_passes none = true
redis_passes (some c) = passes c

abbrev pub redis_time : Option Call → ℕ
redis_time none = 0
redis_time (some c) = check_time c

-- Whether `verifyDependencies` returns, and its time.
unfoldable pub verify_dependencies : Bool → Dependencies → Bool × ℕ
verify_dependencies is_prod d =
    let t1 = check_time d.database in
    let t2 = t1 + redis_time d.redis in
    let t3 = t2 + check_time d.rate_limit_redis in
    if not (passes d.database)
    then (false, t1)
    else (if not (tolerated is_prod (redis_passes d.redis))
        then (false, t2)
        else (tolerated is_prod (passes d.rate_limit_redis), t3))

pub data Started : Type 0 where
  listening : Started
  -- `process.exit(1)`
  exits : Started

-- `start`; `listens` says whether the port could be taken.
unfoldable pub start : ℕ → Bool → Dependencies → Bool → Started × ℕ
start port is_prod d listens =
    if port == 0
    then (exits, 0)
    else (let v = verify_dependencies is_prod d in
        if v.0 then ((if listens then listening else exits), v.1) else (exits, v.1))

check_time_le : (c : Call) → check_time c ≤ 5000
unfolding check_time
check_time_le (resolves t) = omega arith
check_time_le (rejects t) = omega arith
check_time_le hangs = omega arith

redis_time_le : (c : Option Call) → redis_time c ≤ 5000
redis_time_le none = omega arith
redis_time_le (some c) = check_time_le c

-- The call is answered within five seconds.
abbrev pub IsAnswered : Call → Type 0
IsAnswered (resolves t) = t < 5000
IsAnswered (rejects t) = ⊥
IsAnswered hangs = ⊥

passes_iff : (c : Call) → (passes c ≡ true) ↔ IsAnswered c
unfolding passes
passes_iff (resolves t) = ground arith
passes_iff (rejects t) = (λ h. absurd (ground (arith, h)), λ h. absurd h)
passes_iff hangs = (λ h. absurd (ground (arith, h)), λ h. absurd h)

abbrev pub IsAnsweredIfAny : Option Call → Type 0
IsAnsweredIfAny none = Unit
IsAnsweredIfAny (some c) = IsAnswered c

redis_passes_iff : (c : Option Call) → (redis_passes c ≡ true) ↔ IsAnsweredIfAny c
redis_passes_iff none = (λ h. tt, λ h. refl)
redis_passes_iff (some c) = passes_iff c

-- The server listens exactly if a port is set and free, the database answers within five seconds and,
-- in production, the Redis client of the limiters does and so does the other one, if its module has
-- it; and it is decided within fifteen seconds.
pub listens_exactly :
    (port : ℕ) (is_prod : Bool) (d : Dependencies) (listens : Bool)
    → let r = start port is_prod d listens in
      ((r.0 ≡ listening) ↔ (
        (port ≢ 0)
        × IsAnswered d.database
        × (is_prod ≡ true → IsAnsweredIfAny d.redis × IsAnswered d.rate_limit_redis)
        × (listens ≡ true)))
      × (r.1 ≤ 15000)
unfolding start verify_dependencies
listens_exactly port is_prod d listens =
    let t1 = check_time_le d.database in
    let t2 = redis_time_le d.redis in
    let t3 = check_time_le d.rate_limit_redis in
    let a1 = passes_iff d.database in
    let a2 = redis_passes_iff d.redis in
    let a3 = passes_iff d.rate_limit_redis in ground (arith, t1, t2, t3, a1, a2, a3)
