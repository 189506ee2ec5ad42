-- ===== src/Errors/Handler.antt =====
-- errorHandler.js: the answer to an error. Texts are lists of code points, and a text or a number that
-- is missing is empty or 0. csrfProtection.js and internalIpGuard.js: the guards of requests.
use helloplanbuddy_cmd_plan.Base.{
  ℕ, Bool, true, false, not, ◌&&◌, ◌||◌, Option, none, some, List, [], ◌∷◌, leb, ◌==◌,
  if◌then◌else◌,
}
use helloplanbuddy_cmd_plan.Base.Text.{Text, text_eq, codes, starts_with}

pub record Error {ℓ} (D : Type ℓ) : Type ℓ where
  pub status_code : ℕ
  pub status : ℕ
  pub message : Text
  pub code : Text
  pub name : Text
  pub details : Option D
  pub is_operational : Bool
  -- The errors of a `ZodError`, as the answer shows them.
  pub zod_errors : Option D
  -- The details that show the constraint of a unique violation, if it is known.
  pub constraint : Option D

pub record Answer {ℓ} (D : Type ℓ) : Type ℓ where
  pub status : ℕ
  pub message : Text
  pub code : Text
  pub details : Option D
  pub validation_errors : Option D

-- `||` on texts and numbers.
abbrev pub or_text : Text → Text → Text
or_text [] t = t
or_text (c ∷ s) t = c ∷ s

abbrev pub or_number : ℕ → ℕ → ℕ
or_number n k = if n == 0 then k else n

abbrev pub internal_error : Text
internal_error = codes "Internal Server Error"

pub record Mapped : Type 0 where
  pub pg_code : Text
  pub status : ℕ
  pub message : Text
  pub code : Text

-- `PG_ERROR_MAP`
abbrev pub pg_error_map : List Mapped
pg_error_map =
    record {
      pg_code = codes "23505";
      status = 409;
      message = codes "Duplicate entry — resource already exists.";
      code = codes "DUPLICATE_ENTRY";
    }
    ∷ record {
      pg_code = codes "23503";
      status = 400;
      message = codes "Referenced resource does not exist.";
      code = codes "FOREIGN_KEY_VIOLATION";
    }
    ∷ record {
      pg_code = codes "23502";
      status = 400;
      message = codes "Required field missing.";
      code = codes "NOT_NULL_VIOLATION";
    }
    ∷ record {
      pg_code = codes "23514";
      status = 400;
      message = codes "Data constraint violation.";
      code = codes "CHECK_VIOLATION";
    }
    ∷ record {
      pg_code = codes "42P01";
      status = 500;
      message = codes "Database schema error.";
      code = codes "TABLE_NOT_FOUND";
    }
    ∷ record {
      pg_code = codes "42703";
      status = 500;
      message = codes "Database schema error.";
      code = codes "COLUMN_NOT_FOUND";
    }
    ∷ record {
      pg_code = codes "40001";
      status = 503;
      message = codes "Service temporarily unavailable — please retry.";
      code = codes "SERIALIZATION_FAILURE";
    }
    ∷ record {
      pg_code = codes "40P01";
      status = 503;
      message = codes "Service temporarily unavailable — please retry.";
      code = codes "DEADLOCK_DETECTED";
    }
    ∷ record {
      pg_code = codes "57014";
      status = 504;
      message = codes "Query timeout.";
      code = codes "STATEMENT_TIMEOUT";
    }
    ∷ []

unfoldable pub find_mapped : Text → List Mapped → Option Mapped
find_mapped code [] = none
find_mapped code (m ∷ ms) = if text_eq code m.pg_code then some m else find_mapped code ms

module _ {ℓ} {D : Type ℓ} where
  -- What the handler begins with.
  abbrev pub resolved : Error D → Answer D
  resolved e = record {
    status = or_number e.status_code (or_number e.status 500);
    message = or_text e.message internal_error;
    code = e.code;
    details = e.details;
    validation_errors = none;
  }

  abbrev pub constraint_details : Error D → Option D
  constraint_details e = elim e.constraint [ none ↦ e.details | some shown ↦ some shown ]

  abbrev pub pg_answer : Error D → Mapped → Answer D
  pg_answer e m = record (resolved e) {
    status = m.status;
    message = m.message;
    code = m.code;
    details = if text_eq e.code (codes "23505") then constraint_details e else e.details;
  }

  -- The branches behind the errors of the database.
  abbrev pub other_answer : Bool → Error D → Answer D
  other_answer is_prod e =
      let a = resolved e in
      if text_eq e.name (codes "JsonWebTokenError")
      then record a {
        status = 401;
        message = codes "Invalid authentication token.";
        code = codes "INVALID_TOKEN";
      }
      else (if text_eq e.name (codes "TokenExpiredError")
          then record a {
            status = 401;
            message = codes "Authentication token has expired.";
            code = codes "TOKEN_EXPIRED";
          }
          else (if starts_with (codes "CORS:") a.message
              then record a { status = 403; code = codes "CORS_FORBIDDEN" }
              else (if not e.is_operational && (leb 500 a.status && is_prod)
                  then record a {
                    message = internal_error;
                    code = codes "INTERNAL_ERROR";
                    details = none;
                  }
                  else a)))

  abbrev pub unless_mapped : Bool → Error D → Option Mapped → Answer D
  unless_mapped is_prod e none = other_answer is_prod e
  unless_mapped is_prod e (some m) = pg_answer e m

  abbrev pub unless_zod : Bool → Error D → Option D → Answer D
  unless_zod is_prod e none = unless_mapped is_prod e (find_mapped e.code pg_error_map)
  unless_zod is_prod e (some errors) = record (resolved e) {
    status = 400;
    message = codes "Validation failed.";
    code = codes "VALIDATION_ERROR";
    validation_errors = some errors;
  }

  -- `errorHandler`, without the stack that is added in development.
  unfoldable pub error_handler : Bool → Error D → Answer D
  error_handler is_prod e = unless_zod is_prod e e.zod_errors

abbrev pub is_absent : Option Text → Bool
is_absent none = true
is_absent (some []) = true
is_absent (some (c ∷ t)) = false

-- `csrfProtection`: whether a request passes, of its method and the header X-Requested-With.
unfoldable pub csrf_protection : Bool → Text → Option Text → Bool
csrf_protection is_prod method header =
    text_eq method (codes "GET")
    || (text_eq method (codes "HEAD")
        || (text_eq method (codes "OPTIONS") || not (is_prod && is_absent header)))
