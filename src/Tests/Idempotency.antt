-- ===== src/Tests/Idempotency.antt =====
-- Runs of planbuddy_v9/middleware/idempotency.js and Idempotencyconflictlimiter.js.
use helloplanbuddy_cmd_plan.Base.{◌≡◌, refl, inl, inr, true, false, some, [], ◌∷◌, arith}
use helloplanbuddy_cmd_plan.Base.Text.{Text, text_eq, lookup, insert}
use helloplanbuddy_cmd_plan.Idempotency.Conflicts.{Abuse, default_limits}
use helloplanbuddy_cmd_plan.Idempotency.Keys.{Request, scoped_key}
use helloplanbuddy_cmd_plan.Idempotency.Requests.{
  World, Config, BeginFaults, FinishFaults, begin, finish, replied,
}
use helloplanbuddy_cmd_plan.Idempotency.Histories.{
  take_step, Step, begins, ends, rescues, take_steps,
}
use helloplanbuddy_cmd_plan.Idempotency.Replay.{success_replayed}
use helloplanbuddy_cmd_plan.Idempotency.Locking.{NotRun, in_flight_excluded}

abbrev address : Text
address = 49 ∷ 46 ∷ 49 ∷ []

abbrev quiet : Abuse
quiet = record { counters = []; blocks = [] }

abbrev pay : Request
pay = record { user = some (117 ∷ []); method = 80 ∷ []; path = 47 ∷ 112 ∷ []; ip = address }

abbrev raw_key : Text
raw_key = 107 ∷ 49 ∷ []

abbrev other_key : Text
other_key = 107 ∷ 50 ∷ []

abbrev config : Config
config = record { digest = λ key. 64 ∷ key; ttl_s = 86400; limits = default_limits }

abbrev empty : World
empty = record { redis_ready = true; done = []; locks = []; rows = []; abuse = quiet }

abbrev calm : BeginFaults
calm = record {
  get_fails = false;
  del_fails = false;
  row_fails = false;
  lock_fails = false;
  track_fails = false;
}

abbrev smooth : FinishFaults
smooth = record { cache_fails = false; row_fails = false; release_fails = false }

abbrev retry : Step
retry = begins pay raw_key calm 200

abbrev other_ends : Step
other_ends = ends pay other_key smooth true 200 8 250

success_replayed_example :
    (begin config pay raw_key calm 900 (
      take_steps config
        (retry ∷ other_ends ∷ rescues pay raw_key ∷ [])
        (finish config pay raw_key smooth true 201 7 100 empty))).1
    ≡ replied 201 7
unfolding lookup text_eq scoped_key
success_replayed_example =
    success_replayed config pay pay raw_key raw_key smooth calm true 201 7 100 900
      (retry ∷ other_ends ∷ rescues pay raw_key ∷ []) empty refl refl refl refl
      (tt, (inr (refl, refl), (tt, tt))) (inl (refl, refl)) (omega arith)

in_flight_excluded_example :
    NotRun
      (begin config pay raw_key calm 120 (
        take_steps config
          (begins pay raw_key calm 110 ∷ ends pay other_key smooth true 200 8 115 ∷ [])
          (begin config pay raw_key calm 100 empty).0)).1
unfolding begin take_steps take_step finish text_eq scoped_key lookup insert
in_flight_excluded_example =
    in_flight_excluded config pay pay raw_key raw_key calm calm 100 120
      (begins pay raw_key calm 110 ∷ ends pay other_key smooth true 200 8 115 ∷ []) empty refl refl
      (omega arith, (inr refl, tt)) refl refl (omega arith)
