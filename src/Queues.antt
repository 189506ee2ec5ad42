-- ===== src/Queues.antt =====
-- queues.js: the queue keys and the tables indexed by them. Every table lists all six keys, so
-- the source's `??` defaults are never reached and the tables are total functions.
use helloplanbuddy_cmd_plan.Base.{ℕ, Bool, true, false}

pub data QueueKey : Type 0 where
  webhook_events email_dispatch refund_retry : QueueKey
  booking_expiry payment_reconciliation outbox_relay : QueueKey

abbrev pub total_shards : QueueKey → ℕ
total_shards webhook_events = 8
total_shards email_dispatch = 4
total_shards refund_retry = 2
total_shards booking_expiry = 2
total_shards payment_reconciliation = 2
total_shards outbox_relay = 4

abbrev pub concurrency : QueueKey → ℕ
concurrency webhook_events = 10
concurrency email_dispatch = 5
concurrency refund_retry = 3
concurrency booking_expiry = 2
concurrency payment_reconciliation = 2
concurrency outbox_relay = 4

abbrev pub concurrency_min : QueueKey → ℕ
concurrency_min webhook_events = 1
concurrency_min email_dispatch = 1
concurrency_min refund_retry = 1
concurrency_min booking_expiry = 1
concurrency_min payment_reconciliation = 1
concurrency_min outbox_relay = 1

abbrev pub concurrency_max : QueueKey → ℕ
concurrency_max webhook_events = 40
concurrency_max email_dispatch = 20
concurrency_max refund_retry = 8
concurrency_max booking_expiry = 8
concurrency_max payment_reconciliation = 8
concurrency_max outbox_relay = 16

abbrev pub batch_size : QueueKey → ℕ
batch_size webhook_events = 50
batch_size email_dispatch = 20
batch_size refund_retry = 10
batch_size booking_expiry = 100
batch_size payment_reconciliation = 50
batch_size outbox_relay = 100

abbrev pub polling_interval_ms : QueueKey → ℕ
polling_interval_ms webhook_events = 500
polling_interval_ms email_dispatch = 1000
polling_interval_ms refund_retry = 2000
polling_interval_ms booking_expiry = 5000
polling_interval_ms payment_reconciliation = 5000
polling_interval_ms outbox_relay = 200

abbrev pub notify_fallback_poll_ms : QueueKey → ℕ
notify_fallback_poll_ms webhook_events = 5000
notify_fallback_poll_ms email_dispatch = 10000
notify_fallback_poll_ms refund_retry = 15000
notify_fallback_poll_ms booking_expiry = 30000
notify_fallback_poll_ms payment_reconciliation = 30000
notify_fallback_poll_ms outbox_relay = 2000

abbrev pub lease_timeout_ms : QueueKey → ℕ
lease_timeout_ms webhook_events = 30000
lease_timeout_ms email_dispatch = 60000
lease_timeout_ms refund_retry = 120000
lease_timeout_ms booking_expiry = 55000
lease_timeout_ms payment_reconciliation = 280000
lease_timeout_ms outbox_relay = 30000

abbrev pub heartbeat_interval_ms : QueueKey → ℕ
heartbeat_interval_ms webhook_events = 10000
heartbeat_interval_ms email_dispatch = 20000
heartbeat_interval_ms refund_retry = 40000
heartbeat_interval_ms booking_expiry = 18000
heartbeat_interval_ms payment_reconciliation = 90000
heartbeat_interval_ms outbox_relay = 10000

abbrev pub max_processing_time_ms : QueueKey → ℕ
max_processing_time_ms webhook_events = 25000
max_processing_time_ms email_dispatch = 50000
max_processing_time_ms refund_retry = 110000
max_processing_time_ms booking_expiry = 50000
max_processing_time_ms payment_reconciliation = 270000
max_processing_time_ms outbox_relay = 20000

abbrev pub max_retry_attempts : QueueKey → ℕ
max_retry_attempts webhook_events = 5
max_retry_attempts email_dispatch = 5
max_retry_attempts refund_retry = 5
max_retry_attempts booking_expiry = 5
max_retry_attempts payment_reconciliation = 5
max_retry_attempts outbox_relay = 10

abbrev pub retry_delay_baseline_ms : QueueKey → ℕ
retry_delay_baseline_ms webhook_events = 1000
retry_delay_baseline_ms email_dispatch = 1000
retry_delay_baseline_ms refund_retry = 2000
retry_delay_baseline_ms booking_expiry = 1000
retry_delay_baseline_ms payment_reconciliation = 1000
retry_delay_baseline_ms outbox_relay = 500

abbrev pub stale_threshold_ms : QueueKey → ℕ
stale_threshold_ms webhook_events = 60000
stale_threshold_ms email_dispatch = 120000
stale_threshold_ms refund_retry = 300000
stale_threshold_ms booking_expiry = 120000
stale_threshold_ms payment_reconciliation = 600000
stale_threshold_ms outbox_relay = 60000

abbrev pub failure_threshold : QueueKey → ℕ
failure_threshold webhook_events = 5
failure_threshold email_dispatch = 3
failure_threshold refund_retry = 3
failure_threshold booking_expiry = 3
failure_threshold payment_reconciliation = 3
failure_threshold outbox_relay = 5

abbrev pub open_timeout_ms : QueueKey → ℕ
open_timeout_ms webhook_events = 30000
open_timeout_ms email_dispatch = 60000
open_timeout_ms refund_retry = 120000
open_timeout_ms booking_expiry = 30000
open_timeout_ms payment_reconciliation = 60000
open_timeout_ms outbox_relay = 15000

abbrev pub probe_count : QueueKey → ℕ
probe_count webhook_events = 2
probe_count email_dispatch = 1
probe_count refund_retry = 1
probe_count booking_expiry = 1
probe_count payment_reconciliation = 1
probe_count outbox_relay = 2

abbrev pub rate_limit_enabled : QueueKey → Bool
rate_limit_enabled webhook_events = true
rate_limit_enabled email_dispatch = true
rate_limit_enabled refund_retry = true
rate_limit_enabled booking_expiry = false
rate_limit_enabled payment_reconciliation = false
rate_limit_enabled outbox_relay = false
