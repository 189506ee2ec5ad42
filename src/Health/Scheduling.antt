-- ===== src/Health/Scheduling.antt =====
-- planbuddy_v9/config/queues.js: the queues of the API, their repeating jobs, which mark the health of
-- the queues, and the jobs that are added. The queues themselves are a third-party library's, and the
-- service that tracks jobs is not in this repository: both are given.
use helloplanbuddy_cmd_plan.Base.{ℕ, ◌*◌, Option, none, some, [], ◌∷◌, ◌++◌}
use helloplanbuddy_cmd_plan.Base.Text.{Text, Store, insert, codes}
use helloplanbuddy_cmd_plan.Health.{State, queue_initialized, queue_init_error, mark}

pub data ApiQueue : Type 0 where
  booking_expiry payment_reconciliation email_dispatch refund_retry webhook_events : ApiQueue

pub data Backoff : Type 0 where
  custom exponential : ℕ → Backoff

pub record JobOptions : Type 0 where
  pub attempts : ℕ
  pub backoff : Backoff
  pub keep_completed : ℕ
  pub keep_failed : ℕ

abbrev pub default_job_options : JobOptions
default_job_options = record {
  attempts = 5;
  backoff = custom 1000;
  keep_completed = 100;
  keep_failed = 1000;
}

-- The options with which each queue is made.
abbrev pub job_options : ApiQueue → JobOptions
job_options booking_expiry = default_job_options
job_options payment_reconciliation = default_job_options
job_options email_dispatch = record default_job_options { attempts = 5; backoff = exponential 1000 }
job_options refund_retry = record default_job_options { attempts = 5; backoff = exponential 1000 }
job_options webhook_events = default_job_options

-- A repeating job.
pub record Repeating : Type 0 where
  pub queue : ApiQueue
  pub scheduler : Text
  pub every : ℕ
  pub job : Text
  pub options : JobOptions

abbrev pub expiry_sweep : Repeating
expiry_sweep = record {
  queue = booking_expiry;
  scheduler = codes "booking-expiry-cron";
  every = 60000;
  job = codes "expiry-sweep";
  options = default_job_options;
}

abbrev pub reconciliation_run : Repeating
reconciliation_run = record {
  queue = payment_reconciliation;
  scheduler = codes "reconciliation-cron";
  every = 5 * 60000;
  job = codes "reconciliation-run";
  options = default_job_options;
}

-- The failure that is marked and thrown on, or none.
abbrev pub scheduled {ℓ} : {B : Type ℓ} → ℕ → B → State → Option ℕ → B × (State × Option ℕ)
scheduled now b s none = (b, (mark queue_initialized now s, none))
scheduled now b s (some e) = (b, (mark (queue_init_error e) now s, some e))

-- `upsert` is what the library does with a repeating job, and its failure, if any.
module _ {ℓ} {B : Type ℓ} (upsert : Repeating → B → B × Option ℕ) where
  abbrev pub schedule_second : ℕ → B → State → Option ℕ → B × (State × Option ℕ)
  schedule_second now b s none = let r = upsert reconciliation_run b in scheduled now r.0 s r.1
  schedule_second now b s (some e) = scheduled now b s (some e)

  -- `scheduleRepeatableJobs`
  unfoldable pub schedule_repeatable_jobs : ℕ → B → State → B × (State × Option ℕ)
  schedule_repeatable_jobs now b s = let r = upsert expiry_sweep b in schedule_second now r.0 s r.1

-- `closeQueues`, whose failures are ignored; `close` is what the library does with a queue.
unfoldable pub close_queues {ℓ} : {B : Type ℓ} → (ApiQueue → B → B) → B → B
close_queues close b = close webhook_events (
    close refund_retry
      (close email_dispatch (close payment_reconciliation (close booking_expiry b))))

-- The values of a job's data.
pub data Value : Type 0 where
  text : Text → Value
  number : ℕ → Value

-- `{ ...base, ...data }`
unfoldable pub spread : Store Value → Store Value → Store Value
spread base [] = base
spread base ((k, v) ∷ fields) = spread (insert k v base) fields

-- What is registered of a job.
pub record Pending : Type 0 where
  pub id : ℕ
  pub queue : ApiQueue
  pub job_name : Text
  pub payload : Store Value

-- `add` is what the library does with a job: its id, or none where it fails. `mark_pending` is what the
-- service does with its table, where its failures are ignored.
module _ {ℓ κ} {B : Type ℓ} {T : Type κ} (add : ApiQueue → Text → Store Value → B → B × Option ℕ)
    (mark_pending : Pending → T → T) where
  abbrev pub track : ApiQueue → Text → Store Value → T → Option ℕ → T
  track queue name payload t none = t
  track queue name payload t (some id) =
      mark_pending (record { id = id; queue = queue; job_name = name; payload = payload }) t

  -- `enqueueEmail`, which ignores its own failure.
  unfoldable pub enqueue_email : Text → Store Value → B × T → B × T
  enqueue_email type fields s =
      let job = spread ((codes "type", text type) ∷ []) fields in
      let r = add email_dispatch type job s.0 in
      (r.0, track email_dispatch (codes "email-" ++ type) job s.1 r.1)

  -- `enqueueRefundRetry`
  unfoldable pub enqueue_refund_retry : Store Value → B × T → B × T
  enqueue_refund_retry fields s =
      let r =
        add refund_retry (codes "refund-retry") (insert (codes "attempt") (number 1) fields) s.0 in
      (r.0, track refund_retry (codes "refund-retry") fields s.1 r.1)
