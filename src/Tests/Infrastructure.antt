-- ===== src/Tests/Infrastructure.antt =====
-- Runs of the Redis clients, of the monitoring of the queues and of their health.
use helloplanbuddy_cmd_plan.Base.{
  ℕ, ◌≤◌, ◌≡◌, refl, ◌↔◌, ◌⊎◌, true, false, none, some, List, [], ◌∷◌, arith, replicate,
}
use helloplanbuddy_cmd_plan.Base.Text.{Text, Store, codes}
use helloplanbuddy_cmd_plan.Redis.{
  Client, connects, becomes_ready, loses, handle, handle_all, closed,
}
use helloplanbuddy_cmd_plan.Redis.Reconnecting.{all_lost, gives_up}
use helloplanbuddy_cmd_plan.Monitoring.{Queue, unreadable, counted, get_queue_health}
use helloplanbuddy_cmd_plan.Monitoring.Backlog.{waiting_total, NoneDeeper, IsNamed, backlog_right}

abbrev fresh : Client
fresh = record { circuit = closed; retries = 0; is_ended = false }

abbrev outage : List (ℕ × ℕ × ℕ)
outage = replicate 19 (10, 1, 2)

abbrev given_up : Client
given_up = handle (loses 40000 1 2) (handle (loses 20000 1 2) (handle_all (all_lost outage) fresh))

gives_up_example :
    (given_up.is_ended ≡ true) × (handle_all (connects ∷ becomes_ready ∷ []) given_up ≡ given_up)
gives_up_example =
    gives_up outage 20000 1 2 40000 1 2 (connects ∷ becomes_ready ∷ []) fresh refl
      (refl, refl, refl) (omega arith)

abbrev queues : Store Queue
queues =
    (codes "email-dispatch", counted 700 2 0 0 9)
    ∷ (codes "refund-retry", unreadable)
    ∷ (codes "webhook-events", counted 400 0 0 1 0)
    ∷ []

backlog_right_example :
    let r = get_queue_health false queues in
    (r.total_backlog ≡ waiting_total queues)
    × ((r.healthy ≡ true) ↔ (waiting_total queues ≤ 1000))
    × NoneDeeper r.worst_depth queues
    × (((r.worst_queue ≡ none) × (r.worst_depth ≡ 0))
        ⊎ ((name : Text) × (r.worst_queue ≡ some name) × IsNamed name r.worst_depth queues))
backlog_right_example = backlog_right queues
