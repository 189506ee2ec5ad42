-- ===== src/Tests/Config.antt =====
-- Runs of the configuration and of the migrations.
use helloplanbuddy_cmd_plan.Base.{
  ◌≡◌, refl, Bool, true, false, not, ◌&&◌, some, List, [], ◌∷◌, ltb, if◌then◌else◌,
}
use helloplanbuddy_cmd_plan.Base.Text.{Text, lookup, text_eq, any_text, codes}
use helloplanbuddy_cmd_plan.Idempotency.Keys.{trim, trim_start, trim_end}
use helloplanbuddy_cmd_plan.Config.Env.{
  Vars, Env, fails_fast, load, loaded, is_below, required, read_env, read_secrets, has_no_errors,
  dev_secret,
}
use helloplanbuddy_cmd_plan.Config.Loading.{IsComplete, loaded-IsComplete, dev_secret_in_production}
use helloplanbuddy_cmd_plan.Config.Migrations.{File, main}
use helloplanbuddy_cmd_plan.Config.Applying.{IsSorted, how_many, pending_run_in_order}

abbrev secret : Text
secret = codes "0123456789abcdef0123456789abcdef"

abbrev production_vars : Vars
production_vars =
    (codes "NODE_ENV", codes "production")
    ∷ (codes "DATABASE_URL", codes "postgres://db")
    ∷ (codes "JWT_SECRET", secret)
    ∷ (codes "RAZORPAY_KEY_ID", codes "k")
    ∷ (codes "RAZORPAY_KEY_SECRET", codes "s")
    ∷ (codes "RAZORPAY_WEBHOOK_SECRET", codes "w")
    ∷ []

abbrev production_env : Env
production_env = read_env production_vars

loaded-IsComplete_example :
    IsComplete production_env.secrets
    × (is_below production_env.settings.db_pool_max (some 1) ≡ false)
    × (is_below production_env.settings.pm2_instances (some 1) ≡ false)
unfolding load fails_fast read_env read_secrets required lookup text_eq trim trim_start trim_end
    has_no_errors
loaded-IsComplete_example = loaded-IsComplete production_vars production_env refl refl

abbrev padded_vars : Vars
padded_vars = (codes "NODE_ENV", codes "production ") ∷ []

dev_secret_in_production_example :
    (e : Env) × (load padded_vars ≡ loaded e)
    × (e.is_prod ≡ true)
    × (e.secrets.jwt_secret ≡ some dev_secret)
unfolding fails_fast lookup text_eq trim trim_start trim_end
dev_secret_in_production_example =
    dev_secret_in_production padded_vars (codes "production ") refl refl refl refl

-- The database is the list of the versions that were run.
abbrev run_first : File → List Text → List Text × Bool
run_first f d = if text_eq f.version (codes "020") then (d, false) else (f.version ∷ d, true)

abbrev files : List File
files =
    record { number = 30; version = codes "030"; is_migration = true }
    ∷ record { number = 20; version = codes "020"; is_migration = true }
    ∷ record { number = 20; version = codes "020"; is_migration = false }
    ∷ []

abbrev is_late : File → Bool
is_late f = ltb 25 f.number

pending_run_in_order_example :
    let ran = (main run_first (λ d. d) files []).0.ran in
    IsSorted ran
    × (how_many is_late ran
        ≡ how_many
            (λ f. is_late f && not (any_text (text_eq f.version) []) && f.is_migration)
            files)
pending_run_in_order_example = pending_run_in_order run_first (λ d. d) files [] is_late
