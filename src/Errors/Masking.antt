-- ===== src/Errors/Masking.antt =====
-- What answers do not say in production.
use helloplanbuddy_cmd_plan.Base.{
  ◌≤◌, ◌≡◌, refl, inl, inr, true, false, Option, none, some, [], ◌∷◌, arith, leb, Bool-cases,
}
use helloplanbuddy_cmd_plan.Base.Text.{Text, text_eq, codes, starts_with}
use helloplanbuddy_cmd_plan.Errors.Handler.{
  Error, or_text, or_number, internal_error, find_mapped, pg_error_map, Mapped, other_answer,
  unless_mapped, unless_zod, error_handler,
}

plain_resolved :
    (message : Text)
    → starts_with (codes "CORS:") message ≡ false
    → starts_with (codes "CORS:") (or_text message internal_error) ≡ false
unfolding starts_with
plain_resolved [] h = refl
plain_resolved (c ∷ s) h = h

module _ {ℓ} {D : Type ℓ} where
  other_masked :
      (e : Error D) (message : Text)
      → e.is_operational ≡ false
      → starts_with (codes "CORS:") (or_text e.message internal_error) ≡ false
      → starts_with (codes "CORS:") (or_text message internal_error) ≡ false
      → 500 ≤ (other_answer true e).status
      → other_answer true (record e { message = message }) ≡ other_answer true e
  other_masked e message unknown plain plain_too high =
      elim (Bool-cases (text_eq e.name (codes "JsonWebTokenError"))) [
        | inl jwt ↦ rw jwt refl
        | inr not_jwt ↦ elim (Bool-cases (text_eq e.name (codes "TokenExpiredError"))) [
          | inl expired ↦ rw (not_jwt, expired) refl
          | inr live ↦
              elim (Bool-cases (leb 500 (or_number e.status_code (or_number e.status 500)))) [
                | inl severe ↦ rw (not_jwt, live, plain, plain_too, unknown, severe) refl
                | inr mild ↦
                    absurd (ground (arith, mild, rw (not_jwt, live, plain, unknown, mild) at high))
              ]
        ]
      ]

  mapped_masked :
      (e : Error D) (message : Text) (o : Option Mapped)
      → e.is_operational ≡ false
      → starts_with (codes "CORS:") (or_text e.message internal_error) ≡ false
      → starts_with (codes "CORS:") (or_text message internal_error) ≡ false
      → 500 ≤ (unless_mapped true e o).status
      → unless_mapped true (record e { message = message }) o ≡ unless_mapped true e o
  mapped_masked e message none unknown plain plain_too high =
      other_masked e message unknown plain plain_too high
  mapped_masked e message (some m) unknown plain plain_too high = refl

  zod_masked :
      (e : Error D) (message : Text) (z : Option D)
      → e.is_operational ≡ false
      → starts_with (codes "CORS:") (or_text e.message internal_error) ≡ false
      → starts_with (codes "CORS:") (or_text message internal_error) ≡ false
      → 500 ≤ (unless_zod true e z).status
      → unless_zod true (record e { message = message }) z ≡ unless_zod true e z
  zod_masked e message none unknown plain plain_too high =
      mapped_masked e message (find_mapped e.code pg_error_map) unknown plain plain_too high
  zod_masked e message (some errors) unknown plain plain_too high = refl

  -- In production, the answer with a status of 500 or more to an error that is not operational is the
  -- same whatever the error's message is, if neither message is one of the cross-origin errors.
  pub internal_messages_masked :
      (e : Error D) (message : Text)
      → e.is_operational ≡ false
      → starts_with (codes "CORS:") e.message ≡ false
      → starts_with (codes "CORS:") message ≡ false
      → 500 ≤ (error_handler true e).status
      → error_handler true (record e { message = message }) ≡ error_handler true e
  unfolding error_handler
  internal_messages_masked e message unknown plain plain_too high =
      zod_masked e message e.zod_errors unknown (plain_resolved e.message plain)
        (plain_resolved message plain_too) high
