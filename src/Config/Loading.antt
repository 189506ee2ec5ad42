-- ===== src/Config/Loading.antt =====
-- What a configuration that was loaded holds.
use helloplanbuddy_cmd_plan.Base.{
  ℕ, ◌≤◌, min, ◌≡◌, refl, sym, inl, inr, Bool, true, false, ◌&&◌, Option, none, some, [], ◌∷◌,
  arith, leb→le, Bool-cases, length,
}
use helloplanbuddy_cmd_plan.Base.Text.{Text, lookup, text_eq_refl, codes}
use helloplanbuddy_cmd_plan.Idempotency.Keys.{trim}
use helloplanbuddy_cmd_plan.Booking.Availability.{ℤ, pos, negsuc}
use helloplanbuddy_cmd_plan.Config.Env.{
  Vars, required, trimmed, optional, optional_int, or_default, int_or_default, is_below, parse_int,
  Secrets, Env, read_secrets, read_env, is_defined, long_enough, has_no_errors, fails_fast,
  dev_secret, stub_secrets, exits, loaded, load, read_settings,
}

-- A text that is there and not blank.
abbrev pub has_value : Option Text → Bool
has_value none = false
has_value (some []) = false
has_value (some (c ∷ t)) = true

trimmed_value : (o : Option Text) → is_defined (trimmed o) ≡ true → has_value (trimmed o) ≡ true
trimmed_value none h = cc
trimmed_value (some v) h = ground (arith, h)

required_value :
    (key : Text) (vars : Vars)
    → is_defined (required key vars) ≡ true
    → has_value (required key vars) ≡ true
unfolding required
required_value key vars h = trimmed_value (lookup key vars) h

abbrev defaulted : ℕ → Option ℕ → Option Text → ℤ
defaulted default min o = or_default (pos default) (λ v. int_or_default default min (parse_int v)) o

checked_int :
    (default min : ℕ) (n : Option ℤ)
    → min ≤ default
    → is_below (int_or_default default (some min) n) (some min) ≡ false
checked_int default min none h = ground (arith, h)
checked_int default min (some (pos n)) h = ground (arith, h)
checked_int default min (some (negsuc n)) h = ground (arith, h)

defaulted_int :
    (default min : ℕ) (o : Option Text)
    → min ≤ default
    → is_below (defaulted default (some min) o) (some min) ≡ false
defaulted_int default min none h = ground (arith, h)
defaulted_int default min (some v) h = checked_int default min (parse_int v) h

-- A number with a least value is at least that.
int_bounded :
    (key : Text) (default min : ℕ) (vars : Vars)
    → min ≤ default
    → is_below (optional_int key default (some min) vars) (some min) ≡ false
unfolding optional_int
int_bounded key default min vars h = defaulted_int default min (required key vars) h

long_value :
    (o : Option Text)
    → has_value o ≡ true
    → long_enough o ≡ true
    → (t : Text) × (o ≡ some t) × (32 ≤ length t)
long_value none h l = cc
long_value (some t) h l = (t, refl, leb→le 32 (length t) l)

-- Every secret is there, and the one of the tokens has 32 characters at least.
pub record IsComplete (s : Secrets) : Type 0 where
  pub database : has_value s.database_url ≡ true
  pub key_id : has_value s.razorpay_key_id ≡ true
  pub key_secret : has_value s.razorpay_key_secret ≡ true
  pub webhook_secret : has_value s.razorpay_webhook_secret ≡ true
  pub jwt : (t : Text) × (s.jwt_secret ≡ some t) × (32 ≤ length t)

both : (a b : Bool) → a && b ≡ true → (a ≡ true) × (b ≡ true)
both a b h = (ground (arith, h), ground (arith, h))

read-IsComplete :
    (vars : Vars) → has_no_errors (read_secrets vars) ≡ true → IsComplete (read_secrets vars)
unfolding has_no_errors read_secrets
read-IsComplete vars h =
    let h1 = both _ _ h in
    let h2 = both _ _ h1.1 in
    let h3 = both _ _ h2.1 in
    let h4 = both _ _ h3.1 in
    let h5 = both _ _ h4.1 in
    record {
      database = required_value (codes "DATABASE_URL") vars h1.0;
      key_id = required_value (codes "RAZORPAY_KEY_ID") vars h3.0;
      key_secret = required_value (codes "RAZORPAY_KEY_SECRET") vars h4.0;
      webhook_secret = required_value (codes "RAZORPAY_WEBHOOK_SECRET") vars h5.0;
      jwt = long_value _ (required_value (codes "JWT_SECRET") vars h2.0) h5.1;
    }

loaded_cases :
    (vars : Vars) (e : Env)
    → fails_fast vars ≡ true
    → load vars ≡ loaded e
    → (e ≡ read_env vars) × (has_no_errors (read_env vars).secrets ≡ true)
unfolding load
loaded_cases vars e strict h = elim (Bool-cases (has_no_errors (read_env vars).secrets)) [
  | inl good ↦ let k : loaded (read_env vars) ≡ loaded e = rw good at h in (sym (cc k), good)
  | inr bad ↦ let k : exits ≡ loaded e = rw (bad, strict) at h in absurd (ground (arith, k))
]

-- Where the variable NODE_ENV says production or test, a configuration that is loaded has every secret,
-- with at least 32 characters for the tokens; and its pool and its number of processes are at least one.
pub loaded-IsComplete :
    (vars : Vars) (e : Env)
    → fails_fast vars ≡ true
    → load vars ≡ loaded e
    → IsComplete e.secrets
      × (is_below e.settings.db_pool_max (some 1) ≡ false)
      × (is_below e.settings.pm2_instances (some 1) ≡ false)
unfolding read_env read_settings
loaded-IsComplete vars e strict h =
    let c = loaded_cases vars e strict h in
    rw c.0 (
      read-IsComplete vars c.1,
      int_bounded (codes "DB_POOL_MAX") 30 1 vars (omega arith),
      int_bounded (codes "PM2_INSTANCES") 2 1 vars (omega arith),
    )

secret_missed : (s : Secrets) → s.jwt_secret ≡ none → has_no_errors s ≡ false
unfolding has_no_errors
secret_missed s h = ground (arith, h)

stubbed :
    (vars : Vars)
    → has_no_errors (read_env vars).secrets ≡ false
    → fails_fast vars ≡ false
    → load vars ≡ loaded (record (read_env vars) { secrets = stub_secrets vars })
unfolding load
stubbed vars bad lenient = rw (bad, lenient) refl

production_mode :
    (vars : Vars) (raw : Text)
    → lookup (codes "NODE_ENV") vars ≡ some raw
    → trim raw ≡ codes "production"
    → (read_env vars).is_prod ≡ true
unfolding read_env optional required
production_mode vars raw mode production = rw (mode, production) (text_eq_refl (codes "production"))

missing_secret :
    (vars : Vars)
    → lookup (codes "JWT_SECRET") vars ≡ none
    → (read_env vars).secrets.jwt_secret ≡ none
unfolding read_env read_secrets required
missing_secret vars missing = rw missing refl

stub_secret :
    (vars : Vars)
    → lookup (codes "JWT_SECRET") vars ≡ none
    → (stub_secrets vars).jwt_secret ≡ some dev_secret
unfolding stub_secrets trim
stub_secret vars missing = rw missing refl

-- If NODE_ENV is production only once it is trimmed, and the secret of the tokens is missing, the
-- process goes on in production with the secret of the development.
pub dev_secret_in_production :
    (vars : Vars) (raw : Text)
    → lookup (codes "NODE_ENV") vars ≡ some raw
    → trim raw ≡ codes "production"
    → fails_fast vars ≡ false
    → lookup (codes "JWT_SECRET") vars ≡ none
    → (e : Env) × (load vars ≡ loaded e)
      × (e.is_prod ≡ true)
      × (e.secrets.jwt_secret ≡ some dev_secret)
dev_secret_in_production vars raw mode production lenient missing =
    let bad = secret_missed (read_env vars).secrets (missing_secret vars missing) in
    (
      record (read_env vars) { secrets = stub_secrets vars },
      stubbed vars bad lenient,
      production_mode vars raw mode production,
      stub_secret vars missing,
    )
