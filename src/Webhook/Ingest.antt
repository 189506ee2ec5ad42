-- ===== src/Webhook/Ingest.antt =====
-- razorpayWebhookController.js: `handleRazorpayWebhook`, and `enqueueWebhookEvent` of
-- planbuddy_v9/config/queues.js. Bodies, headers and ids are texts.
use helloplanbuddy_cmd_plan.Base.{
  ℕ, ◌+◌, Bool, false, ◌&&◌, ◌||◌, Option, none, some, List, [], ◌∷◌, map, leb, ◌==◌, if◌then◌else◌,
}
use helloplanbuddy_cmd_plan.Base.Text.{Text, text_eq}

-- What the handler reads of the parsed payload: an id is `String` of it where it is truthy, and `none`
-- otherwise.
pub record Payload : Type 0 where
  pub id : Option Text
  pub event_id : Option Text
  pub nested_id : Option Text
  pub event : Option Text
  pub nested_type : Option Text

pub data Body : Type 0 where
  buffer : Text → Body
  other : ℕ → Body

-- What the handler calls: the service for timestamps and for bodies that are no buffers (`none` is a
-- throw, and a refused timestamp gives its status, 0 if it has none), the digest with the secret, the
-- decoding of the signature, and `JSON.parse`.
pub record Services : Type 0 where
  pub secret : Option Text
  pub extract_payload_bytes : ℕ → Option Text
  pub verify_ingress_timestamp : Option Text → Option ℕ
  pub hmac : Text → Text → Text
  pub from_hex : Text → Text
  pub parse : Text → Option Payload

pub record Request : Type 0 where
  pub headers : List (Text × Text)
  pub body : Body
  pub request_id : Option ℕ

-- A row of webhook_events, with the status 'received' and the provider 'razorpay'.
pub record Event : Type 0 where
  pub id : ℕ
  pub provider_event_id : Text
  pub event_type : Text
  pub payload : Payload
  pub payload_bytes : Text
  pub signature : Option Text
  pub request_id : Option ℕ

-- The table, and the job ids that the queue has accepted.
pub record Inbox : Type 0 where
  pub events : List Event
  pub added : List Text

pub data Code : Type 0 where
  missing_raw_body timestamp_refused signature_missing signing_secret_missing signature_mismatch
        invalid_json missing_event_id db_error :
      Code

pub data Reply : Type 0 where
  accepted : Reply
  rejected : ℕ → Code → Reply

-- JavaScript's truthiness of a text.
abbrev pub truthy : Option Text → Option Text
truthy none = none
truthy (some []) = none
truthy (some (c ∷ s)) = some (c ∷ s)

abbrev pub or_else : Option Text → Option Text → Option Text
or_else none u = u
or_else (some t) u = some t

abbrev pub lower : ℕ → ℕ
lower c = if leb 65 c && leb c 90 then c + 32 else c

-- `getHeader`
unfoldable pub get_header : Text → List (Text × Text) → Option Text
get_header name [] = none
get_header name ((key, value) ∷ rest) =
    let later = get_header name rest in
    if text_eq (map lower key) (map lower name) then some value else later

abbrev pub non_empty : Option Text → Option Text
non_empty t = truthy t

-- `toRawBytes`; `none` is the throw.
abbrev pub to_raw_bytes : Services → Body → Option Text
to_raw_bytes s (buffer bytes) = non_empty (some bytes)
to_raw_bytes s (other body) = non_empty (s.extract_payload_bytes body)

-- `verifySignature`; `none` is a signature that is right.
abbrev pub verify_decoded : Services → Text → Text → Option Text → Option Reply
verify_decoded s raw signature none = some (rejected 500 signing_secret_missing)
verify_decoded s raw signature (some secret) =
    if text_eq (s.hmac secret raw) (s.from_hex signature)
    then none
    else some (rejected 401 signature_mismatch)

abbrev pub verify_present : Services → Text → Option Text → Option Reply
verify_present s raw none = some (rejected 401 signature_missing)
verify_present s raw (some signature) = verify_decoded s raw signature (truthy s.secret)

unfoldable pub verify_signature : Services → Text → Option Text → Option Reply
verify_signature s raw signature = verify_present s raw (truthy signature)

unfoldable pub extract_provider_event_id : Payload → Option Text
extract_provider_event_id p =
    or_else (truthy p.id) (or_else (truthy p.event_id) (truthy p.nested_id))

abbrev pub unknown : Text
unknown = 117 ∷ 110 ∷ 107 ∷ 110 ∷ 111 ∷ 119 ∷ 110 ∷ []

abbrev pub type_or_unknown : Option Text → Text
type_or_unknown none = unknown
type_or_unknown (some t) = t

unfoldable pub extract_event_type : Payload → Text
extract_event_type p = type_or_unknown (or_else (truthy p.event) (truthy p.nested_type))

abbrev pub signature_header : Text
signature_header =
    120 ∷ 45 ∷ 114 ∷ 97 ∷ 122 ∷ 111 ∷ 114 ∷ 112 ∷ 97 ∷ 121 ∷ 45 ∷ 115 ∷ 105 ∷ 103 ∷ 110 ∷ 97 ∷ 116
    ∷ 117 ∷ 114 ∷ 101 ∷ []

abbrev pub timestamp_header : Text
timestamp_header =
    120 ∷ 45 ∷ 114 ∷ 97 ∷ 122 ∷ 111 ∷ 114 ∷ 112 ∷ 97 ∷ 121 ∷ 45 ∷ 116 ∷ 105 ∷ 109 ∷ 101 ∷ 115 ∷ 116
    ∷ 97 ∷ 109 ∷ 112 ∷ []

abbrev pub signature_of : Request → Option Text
signature_of r = get_header signature_header r.headers

-- The checks before the database: an early reply, or the bytes, the payload and the event's id.
pub data Checked : Type 0 where
  stop : Reply → Checked
  proceed : Text → Payload → Text → Checked

abbrev pub require_id : Payload → Text → Option Text → Checked
require_id p raw none = stop (rejected 400 missing_event_id)
require_id p raw (some event) = proceed raw p event

abbrev pub require_json : Text → Option Payload → Checked
require_json raw none = stop (rejected 400 invalid_json)
require_json raw (some p) = require_id p raw (extract_provider_event_id p)

abbrev pub after_signature : Services → Text → Option Reply → Checked
after_signature s raw none = require_json raw (s.parse raw)
after_signature s raw (some reply) = stop reply

-- `err.status || 401`
abbrev pub status_or_401 : ℕ → ℕ
status_or_401 status = if status == 0 then 401 else status

abbrev pub after_timestamp : Services → Request → Text → Option ℕ → Checked
after_timestamp s r raw none = after_signature s raw (verify_signature s raw (signature_of r))
after_timestamp s r raw (some status) = stop (rejected (status_or_401 status) timestamp_refused)

abbrev pub after_body : Services → Request → Option Text → Checked
after_body s r none = stop (rejected 500 missing_raw_body)
after_body s r (some raw) =
    after_timestamp s r raw (s.verify_ingress_timestamp (get_header timestamp_header r.headers))

unfoldable pub check_request : Services → Request → Checked
check_request s r = after_body s r (to_raw_bytes s r.body)

unfoldable pub has_event : Text → List Event → Bool
has_event event [] = false
has_event event (e ∷ rest) = text_eq event e.provider_event_id || has_event event rest

-- `webhook-${provider}-${providerEventId}`
abbrev pub job_id : Text → Text
job_id event =
    119 ∷ 101 ∷ 98 ∷ 104 ∷ 111 ∷ 111 ∷ 107 ∷ 45 ∷ 114 ∷ 97 ∷ 122 ∷ 111 ∷ 114 ∷ 112 ∷ 97 ∷ 121 ∷ 45
    ∷ event

-- The id of a row that would be inserted, and whether the insert or the queue fails.
pub record Run : Type 0 where
  pub new_id : ℕ
  pub insert_fails : Bool
  pub enqueue_fails : Bool

-- `enqueueWebhookEvent`, which turns its own failure into null.
abbrev pub enqueue : Run → Text → Inbox → Inbox
enqueue f event w = if f.enqueue_fails then w else record w { added = job_id event ∷ w.added }

abbrev pub new_event : Run → Request → Text → Payload → Text → Event
new_event f r raw p event = record {
  id = f.new_id;
  provider_event_id = event;
  event_type = extract_event_type p;
  payload = p;
  payload_bytes = raw;
  signature = signature_of r;
  request_id = r.request_id;
}

-- Steps 5 to 7: `ON CONFLICT (provider, provider_event_id) DO NOTHING`, and the queue for a new row.
unfoldable pub store_event : Run → Request → Text → Payload → Text → Inbox → Inbox × Reply
store_event f r raw p event w =
    if f.insert_fails
    then (w, rejected 500 db_error)
    else (if has_event event w.events then (w, accepted) else (
      enqueue f event (record w { events = new_event f r raw p event ∷ w.events }),
      accepted,
    ))

abbrev pub after_check : Run → Request → Inbox → Checked → Inbox × Reply
after_check f r w (stop reply) = (w, reply)
after_check f r w (proceed raw p event) = store_event f r raw p event w

unfoldable pub handle : Services → Run → Request → Inbox → Inbox × Reply
handle s f r w = after_check f r w (check_request s r)
