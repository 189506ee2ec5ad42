-- ===== src/Config/Migrations.antt =====
-- planbuddy_v9/apply-all-migrations.js. The database is a parameter: it says which versions are applied
-- and runs the text of a file. A file has the number and the text of its version.
use helloplanbuddy_cmd_plan.Base.{ℕ, ◌+◌, Bool, List, [], ◌∷◌, ◌++◌, leb, ◌==◌, if◌then◌else◌}
use helloplanbuddy_cmd_plan.Base.Text.{Text, text_eq, any_text}

pub record File : Type 0 where
  -- `parseInt(f.split('_')[0])`, for names that begin with digits.
  pub number : ℕ
  -- `f.split('_')[0]`
  pub version : Text
  -- `f.endsWith('.sql') && !f.includes('rollback')`
  pub is_migration : Bool

unfoldable pub migrations_of : List File → List File
migrations_of [] = []
migrations_of (f ∷ fs) = if f.is_migration then f ∷ migrations_of fs else migrations_of fs

-- The stable sort by number.
unfoldable pub insert_file : File → List File → List File
insert_file f [] = f ∷ []
insert_file f (g ∷ gs) = if leb f.number g.number then f ∷ g ∷ gs else g ∷ insert_file f gs

unfoldable pub sort_files : List File → List File
sort_files [] = []
sort_files (f ∷ fs) = insert_file f (sort_files fs)

-- `getMigrationFiles`
unfoldable pub get_migration_files : List File → List File
get_migration_files fs = sort_files (migrations_of fs)

unfoldable pub pending_of : List Text → List File → List File
pending_of applied [] = []
pending_of applied (f ∷ fs) =
    if any_text (text_eq f.version) applied
    then pending_of applied fs
    else f ∷ pending_of applied fs

-- What was run, in order, and how many failed.
pub record Run {ℓ} (D : Type ℓ) : Type ℓ where
  pub database : D
  pub ran : List File
  pub failures : ℕ

module _ {ℓ} {D : Type ℓ} (run_sql : File → D → D × Bool) where
  -- The loop, which goes on after a failure.
  unfoldable pub apply_each : List File → Run D → Run D
  apply_each [] r = r
  apply_each (f ∷ fs) r =
      let o = run_sql f r.database in
      apply_each fs (record {
        database = o.0;
        ran = r.ran ++ (f ∷ []);
        failures = if o.1 then r.failures else r.failures + 1;
      })

  -- `main`, unless the list of files cannot be read, with the code of the exit.
  unfoldable pub main : (D → List Text) → List File → D → Run D × ℕ
  main applied files d =
      let r =
        apply_each (pending_of (applied d) (get_migration_files files))
          (record { database = d; ran = []; failures = 0 }) in
      (r, if r.failures == 0 then 0 else 1)
