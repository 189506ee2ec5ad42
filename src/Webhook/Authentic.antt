-- ===== src/Webhook/Authentic.antt =====
-- The signature of a webhook.
use helloplanbuddy_cmd_plan.Base.{
  ℕ, ◌≤◌, ◌≡◌, refl, ◌⊎◌, inl, inr, Option, none, some, arith, Bool-cases,
}
use helloplanbuddy_cmd_plan.Base.Text.{Text, text_eq, text_eq→eq}
use helloplanbuddy_cmd_plan.Webhook.Ingest.{
  Services, Request, Inbox, Reply, accepted, rejected, Checked, stop, proceed, truthy, signature_of,
  to_raw_bytes, verify_signature, verify_present, verify_decoded, check_request, Run, after_check,
  handle, after_body, after_timestamp, after_signature, timestamp_header, get_header,
}

-- The bytes were signed with the configured secret.
abbrev pub Signed : Services → Request → Type 0
Signed s r =
    (raw : Text) × (secret : Text) × (signature : Text) × (to_raw_bytes s r.body ≡ some raw)
    × (truthy s.secret ≡ some secret)
    × (truthy (signature_of r) ≡ some signature)
    × (s.hmac secret raw ≡ s.from_hex signature)

abbrev pub status_code : Reply → ℕ
status_code accepted = 200
status_code (rejected status code) = status

abbrev Stopped : Checked → Type 0
Stopped (stop reply) = 400 ≤ status_code reply
Stopped (proceed raw p event) = ⊥

wrong_secret :
    (s : Services) (r : Request) (raw signature : Text) (secret : Option Text)
    → to_raw_bytes s r.body ≡ some raw
    → truthy (signature_of r) ≡ some signature
    → truthy s.secret ≡ secret
    → Signed s r ⊎ Stopped (after_signature s raw (verify_decoded s raw signature secret))
wrong_secret s r raw signature none b g e = inr (omega arith)
wrong_secret s r raw signature (some secret) b g e =
    elim (Bool-cases (text_eq (s.hmac secret raw) (s.from_hex signature))) [
      | inl eq ↦ inl (raw, secret, signature, b, e, g, text_eq→eq _ _ eq)
      | inr ne ↦ inr (rw ne (omega arith))
    ]

wrong_signature :
    (s : Services) (r : Request) (raw : Text) (signature : Option Text)
    → to_raw_bytes s r.body ≡ some raw
    → truthy (signature_of r) ≡ signature
    → Signed s r ⊎ Stopped (after_signature s raw (verify_present s raw signature))
wrong_signature s r raw none b e = inr (omega arith)
wrong_signature s r raw (some signature) b e =
    wrong_secret s r raw signature (truthy s.secret) b e refl

-- What the service of the timestamps throws has no status, or that of an error.
abbrev pub RefusesWithError : Services → Type 0
RefusesWithError s =
    (t : Option Text) (status : ℕ)
    → s.verify_ingress_timestamp t ≡ some status
    → (status ≡ 0) ⊎ (400 ≤ status)

wrong_time :
    (s : Services) (r : Request) (raw : Text) (t : Option ℕ)
    → to_raw_bytes s r.body ≡ some raw
    → ((status : ℕ) → t ≡ some status → (status ≡ 0) ⊎ (400 ≤ status))
    → Signed s r ⊎ Stopped (after_timestamp s r raw t)
unfolding verify_signature
wrong_time s r raw (some status) b h = inr (ground (arith, h status refl))
wrong_time s r raw none b h = wrong_signature s r raw (truthy (signature_of r)) b refl

wrong_body :
    (s : Services) (r : Request) (body : Option Text)
    → to_raw_bytes s r.body ≡ body
    → RefusesWithError s
    → Signed s r ⊎ Stopped (after_body s r body)
wrong_body s r none b h = inr (omega arith)
wrong_body s r (some raw) b h =
    wrong_time s r raw (s.verify_ingress_timestamp (get_header timestamp_header r.headers)) b
      (h (get_header timestamp_header r.headers))

refused_changes_nothing :
    (f : Run) (r : Request) (w : Inbox) (c : Checked)
    → Stopped c
    → ((after_check f r w c).0 ≡ w) × (400 ≤ status_code (after_check f r w c).1)
refused_changes_nothing f r w (stop reply) h = (refl, h)
refused_changes_nothing f r w (proceed raw p event) h = absurd h

-- Either the body was signed with the secret, or the delivery changes nothing and is answered with a
-- status of 400 or more, whatever its payload says, as long as the errors of the timestamp service
-- have no status or such a one.
pub authentic_or_refused :
    (s : Services) (f : Run) (r : Request) (w : Inbox)
    → RefusesWithError s
    → Signed s r ⊎ (((handle s f r w).0 ≡ w) × (400 ≤ status_code (handle s f r w).1))
unfolding handle check_request
authentic_or_refused s f r w h = elim (wrong_body s r (to_raw_bytes s r.body) refl h) [
  | inl signed ↦ inl signed
  | inr stopped ↦ inr (refused_changes_nothing f r w (check_request s r) stopped)
]
