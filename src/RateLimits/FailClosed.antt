-- ===== src/RateLimits/FailClosed.antt =====
-- What the limiters do while Redis is away.
use helloplanbuddy_cmd_plan.Base.{ℕ, ◌≡◌, refl, ◌≢◌, ◌↔◌, Bool, true, false, Option, some, arith}
use helloplanbuddy_cmd_plan.Base.Text.{Text}
use helloplanbuddy_cmd_plan.RateLimits.Limiters.{
  Request, is_bypass_path, Status, is_redis_ready, Backend, memory_store, make_redis_store, Options,
  Limiter, make_limiter, skip, passed, service_unavailable, key_of, limited, handle,
}

module _ {ℓ} {S : Type ℓ} (ip_key_generator : Text → Text)
    (rate_limit : Backend → ℕ → ℕ → Text → Bool → ℕ → S → S × Bool) where
  limited_available :
      (l : Limiter) (now : ℕ) (r : Request) (s : S) (n : ℕ)
      → (limited ip_key_generator rate_limit l now r s).1 ≢ service_unavailable n
  unfolding limited
  limited_available l now r s n = ground arith

  -- A limiter answers that the service is unavailable exactly when it fails closed, the request is
  -- not for a probe and Redis is not ready.
  pub unavailable_exactly :
      (l : Limiter) (client : Option Status) (now : ℕ) (r : Request) (s : S)
      → (handle ip_key_generator rate_limit l client now r s).1 ≡ service_unavailable 30
        ↔ (l.options.fail_closed ≡ true)
          × ((is_bypass_path r ≡ false) × (is_redis_ready client ≡ false))
  unfolding handle
  unavailable_exactly l client now r s = ground (arith, limited_available l now r s 30)

  -- The library's promise on a request that is skipped: it passes and is not counted.
  module _
      (skipped : (b : Backend) (window most : ℕ) (key : Text) (now : ℕ) (s : S)
        → rate_limit b window most key true now s ≡ (s, false)) where
    limited_skips :
        (l : Limiter) (now : ℕ) (r : Request) (s : S)
        → skip l.options r ≡ true
        → limited ip_key_generator rate_limit l now r s ≡ (s, passed)
    unfolding limited
    limited_skips l now r s h =
        let o = l.options in
        rw
          (
            h,
            skipped l.store o.window_ms o.max_hits (key_of ip_key_generator o.key_generator r) now
                s,
          )
          refl

    -- A request for a probe passes every limiter and counts nothing, whatever the state of Redis.
    pub probes_pass :
        (l : Limiter) (client : Option Status) (now : ℕ) (r : Request) (s : S)
        → is_bypass_path r ≡ true
        → handle ip_key_generator rate_limit l client now r s ≡ (s, passed)
    unfolding handle skip
    probes_pass l client now r s h = ground (arith, limited_skips l now r s)

  -- A limiter that was made while Redis was not ready counts in the memory of the process for
  -- ever, also one that fails closed and after Redis became ready.
  pub memory_for_ever :
      (installed : Bool) (at_start : Option Status) (o : Options) (now : ℕ) (r : Request) (s : S)
      → is_redis_ready at_start ≡ false
      → is_bypass_path r ≡ false
      → (handle ip_key_generator rate_limit
          (make_limiter installed at_start o)
          (some Status.ready)
          now
          r
          s).0
        ≡ (rate_limit memory_store o.window_ms o.max_hits
            (key_of ip_key_generator o.key_generator r)
            (skip o r)
            now
            s).0
  unfolding handle make_limiter make_redis_store limited
  memory_for_ever installed at_start o now r s away other = rw (away, other) (ground arith)
