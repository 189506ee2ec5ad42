-- ===== src/RateLimits/Limiters.antt =====
-- rateLimit.js: which requests are counted, by whom and where, and what a limiter answers.
-- Texts are lists of code points, and window lengths are in milliseconds.
use helloplanbuddy_cmd_plan.Base.{
  ℕ, ◌+◌, ◌*◌, ◌/◌, Bool, true, false, ◌&&◌, ◌||◌, Option, none, some, List, [], ◌∷◌, ◌++◌, ◌==◌,
  if◌then◌else◌,
}
use helloplanbuddy_cmd_plan.Base.Text.{Text, text_eq, codes, includes, any_text}

pub record Request : Type 0 where
  pub path : Text
  pub original_url : Option Text
  pub ip : Text
  pub user_id : Option Text

-- `split('?')[0]`
unfoldable pub before_query : Text → Text
before_query [] = []
before_query (c ∷ t) = let rest = before_query t in if c == 63 then [] else c ∷ rest

-- `req.originalUrl?.split('?')[0] ?? ''`
abbrev pub original_path : Request → Text
original_path r = elim r.original_url [ none ↦ [] | some url ↦ before_query url ]

abbrev pub probe_paths : List Text
probe_paths = codes "/health" ∷ codes "/api/health" ∷ codes "/internal" ∷ codes "/metrics" ∷ []

abbrev pub webhook_part : Text
webhook_part = codes "/payment/webhook"

-- `isBypassPath`
unfoldable pub is_bypass_path : Request → Bool
is_bypass_path r =
    any_text (text_eq r.path) probe_paths
    || (text_eq r.path (codes "/") || any_text (text_eq (original_path r)) probe_paths)

-- `isWebhookPath`
unfoldable pub is_webhook_path : Request → Bool
is_webhook_path r = includes webhook_part r.path || includes webhook_part (original_path r)

-- The client's `status`.
pub data Status : Type 0 where
  ready connecting closed : Status

-- What a module of the configuration exports: it may be missing, and its client too.
abbrev pub Module : Type 0
Module = Option (Option Status)

abbrev pub main_client : Module → Option Status
main_client none = none
main_client (some client) = client

-- `getRateLimitRedis`, from config/rateLimitRedis and config/redis.
unfoldable pub get_rate_limit_redis : Module → Module → Option Status
get_rate_limit_redis none main = main_client main
get_rate_limit_redis (some client) main = client

-- `isRedisReady`
abbrev pub is_redis_ready : Option Status → Bool
is_redis_ready none = false
is_redis_ready (some ready) = true
is_redis_ready (some connecting) = false
is_redis_ready (some closed) = false

-- Where a limiter counts: in Redis under a prefix, or in the memory of the process.
pub data Backend : Type 0 where
  redis_store : Text → Backend
  memory_store : Backend

-- `makeRedisStore`; `installed` is whether rate-limit-redis is.
unfoldable pub make_redis_store : Bool → Option Status → Text → Backend
make_redis_store installed client prefix =
    if installed && is_redis_ready client then redis_store prefix else memory_store

pub data KeyGenerator : Type 0 where
  ip_key user_key : KeyGenerator

-- The options of `makeLimiter`.
pub record Options : Type 0 where
  pub name : Text
  pub window_ms : ℕ
  pub max_hits : ℕ
  pub key_generator : KeyGenerator
  pub fail_closed : Bool
  pub extra_skip : Option (Request → Bool)

pub record Limiter : Type 0 where
  pub options : Options
  pub store : Backend

-- `makeLimiter`: the store is chosen once, when the limiter is made.
unfoldable pub make_limiter : Bool → Option Status → Options → Limiter
make_limiter installed client options = record {
  options = options;
  store = make_redis_store installed client (codes "rl:" ++ (options.name ++ codes ":"));
}

abbrev pub extra : Option (Request → Bool) → Request → Bool
extra none r = false
extra (some test) r = test r

-- `skip`
unfoldable pub skip : Options → Request → Bool
skip options r = is_bypass_path r || extra options.extra_skip r

pub data Answer : Type 0 where
  passed : Answer
  rate_limit_exceeded : ℕ → Answer
  service_unavailable : ℕ → Answer

-- `onLimitExceeded`: the status 429 with `Math.ceil(windowMs / 1000)`.
abbrev pub on_limit_exceeded : ℕ → Answer
on_limit_exceeded window_ms = rate_limit_exceeded ((window_ms + 999) / 1000)

-- `ip_key_generator` of express-rate-limit gives the key of an address.
module _ (ip_key_generator : Text → Text) where
  -- `req.user?.id || ipKeyGenerator(req.ip)`
  abbrev pub user_or_ip : Option Text → Text → Text
  user_or_ip none ip = ip_key_generator ip
  user_or_ip (some []) ip = ip_key_generator ip
  user_or_ip (some (c ∷ id)) ip = c ∷ id

  unfoldable pub key_of : KeyGenerator → Request → Text
  key_of ip_key r = ip_key_generator r.ip
  key_of user_key r = user_or_ip r.user_id r.ip

-- `rate_limit` of express-rate-limit, of a store, a window, a maximum, a key, a decision to skip and
-- a time, tells whether it calls the handler.
module _ {ℓ} {S : Type ℓ} (ip_key_generator : Text → Text)
    (rate_limit : Backend → ℕ → ℕ → Text → Bool → ℕ → S → S × Bool) where
  -- The middleware that `rateLimit` builds of the options.
  unfoldable pub limited : Limiter → ℕ → Request → S → S × Answer
  limited l now r s =
      let c =
        rate_limit l.store l.options.window_ms l.options.max_hits
          (key_of ip_key_generator l.options.key_generator r) (skip l.options r) now s in
      (c.0, (if c.1 then on_limit_exceeded l.options.window_ms else passed))

  -- The middleware that `makeLimiter` returns.
  unfoldable pub handle : Limiter → Option Status → ℕ → Request → S → S × Answer
  handle l client now r s =
      if l.options.fail_closed
      then (if is_bypass_path r
          then (s, passed)
          else (if is_redis_ready client then limited l now r s else (s, service_unavailable 30)))
      else limited l now r s

abbrev pub global : Options
global = record {
  name = codes "global";
  window_ms = 15 * 60 * 1000;
  max_hits = 500;
  key_generator = ip_key;
  fail_closed = false;
  extra_skip = some is_webhook_path;
}

abbrev pub auth : Options
auth = record {
  name = codes "auth";
  window_ms = 15 * 60 * 1000;
  max_hits = 20;
  key_generator = ip_key;
  fail_closed = true;
  extra_skip = none;
}

abbrev pub booking : Options
booking = record {
  name = codes "booking";
  window_ms = 60 * 1000;
  max_hits = 10;
  key_generator = user_key;
  fail_closed = false;
  extra_skip = none;
}

abbrev pub verify_payment : Options
verify_payment = record {
  name = codes "verify-payment";
  window_ms = 60 * 1000;
  max_hits = 10;
  key_generator = user_key;
  fail_closed = true;
  extra_skip = none;
}

abbrev pub webhook : Options
webhook = record {
  name = codes "webhook";
  window_ms = 60 * 1000;
  max_hits = 100;
  key_generator = ip_key;
  fail_closed = true;
  extra_skip = none;
}

abbrev pub admin : Options
admin = record {
  name = codes "admin";
  window_ms = 15 * 60 * 1000;
  max_hits = 100;
  key_generator = user_key;
  fail_closed = false;
  extra_skip = none;
}

abbrev pub idempotency_conflict : Options
idempotency_conflict = record {
  name = codes "idempotency_conflict";
  window_ms = 5 * 60 * 1000;
  max_hits = 3;
  key_generator = ip_key;
  fail_closed = false;
  extra_skip = none;
}
