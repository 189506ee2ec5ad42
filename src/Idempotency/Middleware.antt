-- ===== src/Idempotency/Middleware.antt =====
-- idempotency.js: the two middlewares around `runIdempotency`, with the branch for what it throws.
use helloplanbuddy_cmd_plan.Base.{ℕ, Bool, Option, if◌then◌else◌}
use helloplanbuddy_cmd_plan.Base.Text.{Text, erase}
use helloplanbuddy_cmd_plan.Idempotency.Keys.{
  Request, scoped_key, Entry, skip, refuse, proceed, enter, enter_strict,
}
use helloplanbuddy_cmd_plan.Idempotency.Requests.{World, Config, BeginFaults, Outcome, begin}

-- What becomes of a request: it is refused with a status, or `runIdempotency` decides, or it goes on
-- without protection, because it has no key or something was thrown.
pub data Decision : Type 0 where
  refused : ℕ → Decision
  decided : Outcome → Decision
  unprotected : Decision

-- The `catch`: the lock is deleted, whoever holds it, and the request goes on.
abbrev pub rescue : Request → Text → World → World × Decision
rescue q raw w = (
  if w.redis_ready then record w { locks = erase (scoped_key q raw) w.locks } else w,
  unprotected,
)

-- `throws` says whether something is thrown that `runIdempotency` does not catch.
abbrev pub run_or_rescue :
    Config → Request → Text → BeginFaults → Bool → ℕ → World → World × Decision
run_or_rescue c q raw f throws now w =
    let r = begin c q raw f now w in if throws then rescue q raw r.0 else (r.0, decided r.1)

abbrev pub after_entry :
    Config → Request → BeginFaults → Bool → ℕ → World → Entry → World × Decision
after_entry c q f throws now w skip = (w, unprotected)
after_entry c q f throws now w (refuse status) = (w, refused status)
after_entry c q f throws now w (proceed raw) = run_or_rescue c q raw f throws now w

-- `idempotency` and `idempotency.strict`, with the header.
unfoldable pub idempotency :
    Config → Request → Option Text → BeginFaults → Bool → ℕ → World → World × Decision
idempotency c q header f throws now w = after_entry c q f throws now w (enter header)

unfoldable pub idempotency_strict :
    Config → Request → Option Text → BeginFaults → Bool → ℕ → World → World × Decision
idempotency_strict c q header f throws now w = after_entry c q f throws now w (enter_strict header)
