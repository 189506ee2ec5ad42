-- ===== src/Webhook/Dedup.antt =====
-- Deliveries of webhooks, one after the other.
use helloplanbuddy_cmd_plan.Base.{
  ℕ, ◌+◌, ◌≤◌, ◌≡◌, refl, sym, ap, ◌∙◌, inl, inr, true, false, ◌||◌, List, [], ◌∷◌, arith, ltb,
  if◌then◌else◌, Bool-cases,
}
use helloplanbuddy_cmd_plan.Base.Text.{Text, text_eq, text_eq_refl, text_eq→eq}
use helloplanbuddy_cmd_plan.Webhook.Ingest.{
  Payload, Services, Request, Event, Inbox, accepted, Checked, stop, proceed, check_request,
  has_event, job_id, Run, new_event, store_event, after_check, handle,
}

pub record Delivery : Type 0 where
  pub run : Run
  pub request : Request

unfoldable pub deliver_all : Services → List Delivery → Inbox → Inbox
deliver_all s [] w = w
deliver_all s (d ∷ ds) w = deliver_all s ds (handle s d.run d.request w).0

-- The rows of an event.
unfoldable pub rows_of : Text → List Event → ℕ
rows_of event [] = 0
rows_of event (e ∷ rest) = (if text_eq event e.provider_event_id then 1 else 0) + rows_of event rest

-- How often the queue accepted a job id.
unfoldable pub times_added : Text → List Text → ℕ
times_added job [] = 0
times_added job (j ∷ rest) = (if text_eq job j then 1 else 0) + times_added job rest

has_event_rows : (event : Text) (t : List Event) → has_event event t ≡ (ltb 0 (rows_of event t))
unfolding has_event rows_of
has_event_rows event [] = refl
has_event_rows event (e ∷ rest) = ground (arith, has_event_rows event rest)

rows_new :
    (event : Text) (f : Run) (r : Request) (raw : Text) (p : Payload) (added : Text)
    (t : List Event)
    → rows_of event (new_event f r raw p added ∷ t)
      ≡ (if text_eq event added then 1 else 0) + rows_of event t
unfolding rows_of
rows_new event f r raw p added t = refl

store_rows :
    (event : Text) (f : Run) (r : Request) (raw : Text) (p : Payload) (id : Text) (w : Inbox)
    → rows_of event (store_event f r raw p id w).0.events ≡ (
        if f.insert_fails || has_event id w.events
        then rows_of event w.events
        else (if text_eq event id then 1 else 0) + rows_of event w.events)
unfolding store_event rows_of
store_rows event f r raw p id w = ground arith

store_once :
    (event : Text) (f : Run) (r : Request) (raw : Text) (p : Payload) (id : Text) (w : Inbox)
    → rows_of event w.events ≤ 1
    → (rows_of event (store_event f r raw p id w).0.events ≤ 1)
      × (rows_of event w.events ≤ rows_of event (store_event f r raw p id w).0.events)
store_once event f r raw p id w h =
    let rows = store_rows event f r raw p id w in
    elim (Bool-cases (text_eq event id)) [
      | inl e ↦
          let known : has_event id w.events ≡ ltb 0 (rows_of event w.events) =
            has_event_rows id w.events
            ∙ ap (λ t. ltb 0 (rows_of t w.events)) (sym (text_eq→eq event id e)) in
          (rw rows (ground arith), rw rows (ground arith))
      | inr e ↦ (rw rows (ground arith), rw rows (ground arith))
    ]

store_accepts :
    (f : Run) (r : Request) (raw : Text) (p : Payload) (id : Text) (w : Inbox)
    → f.insert_fails ≡ false
    → (store_event f r raw p id w).1 ≡ accepted
unfolding store_event
store_accepts f r raw p id w h = ground arith

store_row :
    (f : Run) (r : Request) (raw : Text) (p : Payload) (id : Text) (w : Inbox)
    → f.insert_fails ≡ false
    → (1 ≤ rows_of id (store_event f r raw p id w).0.events)
      × ((store_event f r raw p id w).1 ≡ accepted)
store_row f r raw p id w h =
    let rows = store_rows id f r raw p id w in
    let known : has_event id w.events ≡ ltb 0 (rows_of id w.events) = has_event_rows id w.events in
    let self : text_eq id id ≡ true = text_eq_refl id in
    (rw rows (ground arith), store_accepts f r raw p id w h)

check_once :
    (event : Text) (f : Run) (r : Request) (c : Checked) (w : Inbox)
    → rows_of event w.events ≤ 1
    → (rows_of event (after_check f r w c).0.events ≤ 1)
      × (rows_of event w.events ≤ rows_of event (after_check f r w c).0.events)
check_once event f r (stop reply) w h = (h, omega arith)
check_once event f r (proceed raw p id) w h = store_once event f r raw p id w h

handle_once :
    (event : Text) (s : Services) (f : Run) (r : Request) (w : Inbox)
    → rows_of event w.events ≤ 1
    → (rows_of event (handle s f r w).0.events ≤ 1)
      × (rows_of event w.events ≤ rows_of event (handle s f r w).0.events)
unfolding handle
handle_once event s f r w h = check_once event f r (check_request s r) w h

deliver_once :
    (event : Text) (s : Services) (ds : List Delivery) (w : Inbox)
    → rows_of event w.events ≤ 1
    → (rows_of event (deliver_all s ds w).events ≤ 1)
      × (rows_of event w.events ≤ rows_of event (deliver_all s ds w).events)
unfolding deliver_all
deliver_once event s [] w h = (h, ground arith)
deliver_once event s (d ∷ ds) w h =
    let first = handle_once event s d.run d.request w h in
    let rest = deliver_once event s ds (handle s d.run d.request w).0 first.0 in
    (rest.0, omega (arith, first.1, rest.1))

-- When a delivery of an event passes the checks and its insert does not fail, it is answered with
-- 200, and after any further deliveries of any events, in any number and with any failures, the table
-- holds exactly one row of the event, whatever row it held before.
pub retries_one_row :
    (s : Services) (f : Run) (r : Request) (raw : Text) (p : Payload) (event : Text)
    (ds : List Delivery) (w : Inbox)
    → rows_of event w.events ≤ 1
    → check_request s r ≡ proceed raw p event
    → f.insert_fails ≡ false
    → ((handle s f r w).1 ≡ accepted)
      × (rows_of event (deliver_all s ds (handle s f r w).0).events ≡ 1)
unfolding handle
retries_one_row s f r raw p event ds w h c ok =
    let stored = store_row f r raw p event w ok in
    let once = store_once event f r raw p event w h in
    let later = deliver_once event s ds (store_event f r raw p event w).0 once.0 in
    rw c (stored.1, omega (arith, stored.0, later.0, later.1))

store_quiet :
    (event : Text) (f : Run) (r : Request) (raw : Text) (p : Payload) (id : Text) (w : Inbox)
    → has_event event w.events ≡ true
    → (has_event event (store_event f r raw p id w).0.events ≡ true)
      × (times_added (job_id event) (store_event f r raw p id w).0.added
          ≡ times_added (job_id event) w.added)
unfolding store_event has_event times_added text_eq
store_quiet event f r raw p id w h = elim (Bool-cases (text_eq event id)) [
  | inl e ↦
      let known : has_event id w.events ≡ true = rw (sym (text_eq→eq event id e)) h in
      (ground arith, ground arith)
  | inr e ↦ (ground arith, ground arith)
]

check_quiet :
    (event : Text) (f : Run) (r : Request) (c : Checked) (w : Inbox)
    → has_event event w.events ≡ true
    → (has_event event (after_check f r w c).0.events ≡ true)
      × (times_added (job_id event) (after_check f r w c).0.added
          ≡ times_added (job_id event) w.added)
check_quiet event f r (stop reply) w h = (h, refl)
check_quiet event f r (proceed raw p id) w h = store_quiet event f r raw p id w h

deliver_quiet :
    (event : Text) (s : Services) (ds : List Delivery) (w : Inbox)
    → has_event event w.events ≡ true
    → times_added (job_id event) (deliver_all s ds w).added ≡ times_added (job_id event) w.added
unfolding deliver_all handle
deliver_quiet event s [] w h = refl
deliver_quiet event s (d ∷ ds) w h =
    let first = check_quiet event d.run d.request (check_request s d.request) w h in
    deliver_quiet event s ds (handle s d.run d.request w).0 first.0 ∙ first.1

store_lost :
    (f : Run) (r : Request) (raw : Text) (p : Payload) (id : Text) (w : Inbox)
    → f.insert_fails ≡ false
    → f.enqueue_fails ≡ true
    → (has_event id (store_event f r raw p id w).0.events ≡ true)
      × ((store_event f r raw p id w).0.added ≡ w.added)
unfolding store_event has_event
store_lost f r raw p id w ok bad =
    let self : text_eq id id ≡ true = text_eq_refl id in (ground arith, ground arith)

-- When the queue fails for an event that no job was added for, the delivery is still answered with
-- 200, and no later delivery, of this or any other event, ever adds its job.
pub lost_job_stays_lost :
    (s : Services) (f : Run) (r : Request) (raw : Text) (p : Payload) (event : Text)
    (ds : List Delivery) (w : Inbox)
    → times_added (job_id event) w.added ≡ 0
    → check_request s r ≡ proceed raw p event
    → f.insert_fails ≡ false
    → f.enqueue_fails ≡ true
    → ((handle s f r w).1 ≡ accepted)
      × (times_added (job_id event) (deliver_all s ds (handle s f r w).0).added ≡ 0)
unfolding handle
lost_job_stays_lost s f r raw p event ds w none_yet c ok bad =
    let lost = store_lost f r raw p event w ok bad in
    rw c (
      store_accepts f r raw p event w ok,
      deliver_quiet event s ds (store_event f r raw p event w).0 lost.0
          ∙ ap (times_added (job_id event)) lost.1
          ∙ none_yet,
    )
