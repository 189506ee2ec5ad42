-- ===== src/Monitoring/Backlog.antt =====
-- What the health of the queues says of their depths.
use helloplanbuddy_cmd_plan.Base.{
  ℕ, ◌+◌, ◌≤◌, ◌<◌, ◌≡◌, refl, sym, ◌∙◌, ◌↔◌, ◌⊎◌, inl, inr, true, false, Option, none, some, [],
  ◌∷◌, arith, ltb, leb, ltb→lt, Bool-cases, All,
}
use helloplanbuddy_cmd_plan.Base.Text.{Text, Store}
use helloplanbuddy_cmd_plan.Monitoring.{
  Queue, unreadable, counted, get_queue_stats, get_all_queue_stats, QueueHealth, add_up,
  get_queue_health,
}

-- The jobs that wait in the queues that could be read.
abbrev waiting_in : Queue → ℕ
waiting_in unreadable = 0
waiting_in (counted waiting active delayed failed completed) = waiting

unfoldable pub waiting_total : Store Queue → ℕ
waiting_total [] = 0
waiting_total ((name, q) ∷ qs) = waiting_in q + waiting_total qs

-- No queue waits deeper.
abbrev pub NoneDeeper : ℕ → Store Queue → Type 0
NoneDeeper depth qs = All (λ e. waiting_in e.1 ≤ depth) qs

-- The queue that is named is one of those that wait deepest.
abbrev pub IsNamed : Text → ℕ → Store Queue → Type 0
IsNamed name depth [] = ⊥
IsNamed name depth ((other, q) ∷ qs) =
    ((name ≡ other) × (waiting_in q ≡ depth)) ⊎ IsNamed name depth qs

record IsRight (total : ℕ) (worst : Option Text) (depth : ℕ) (qs : Store Queue) (r : QueueHealth)
    : Type 0 where
  added : r.total_backlog ≡ total + waiting_total qs
  judged : r.healthy ≡ leb r.total_backlog 1000
  deeper : depth ≤ r.worst_depth
  deepest : NoneDeeper r.worst_depth qs
  named :
      ((r.worst_queue ≡ worst) × (r.worst_depth ≡ depth))
      ⊎ ((name : Text) × (r.worst_queue ≡ some name) × IsNamed name r.worst_depth qs)

pushed :
    (worst : Option Text) (depth : ℕ) (other : Text) (q : Queue) (qs : Store Queue)
    (r : QueueHealth)
    → ((r.worst_queue ≡ worst) × (r.worst_depth ≡ depth))
      ⊎ ((name : Text) × (r.worst_queue ≡ some name) × IsNamed name r.worst_depth qs)
    → ((r.worst_queue ≡ worst) × (r.worst_depth ≡ depth))
      ⊎ ((name : Text) × (r.worst_queue ≡ some name) × IsNamed name r.worst_depth ((other, q) ∷ qs))
pushed worst depth other q qs r (inl h) = inl h
pushed worst depth other q qs r (inr (name, h, k)) = inr (name, h, inr k)

kept_worst :
    (total depth waiting : ℕ) (worst : Option Text) (other : Text) (q : Queue) (qs : Store Queue)
    (r : QueueHealth)
    → waiting_in q ≡ waiting
    → waiting ≤ depth
    → IsRight (total + waiting) worst depth qs r
    → IsRight total worst depth ((other, q) ∷ qs) r
unfolding waiting_total
kept_worst total depth waiting worst other q qs r w le h = record {
  added = omega (arith, h.added, w);
  judged = h.judged;
  deeper = h.deeper;
  deepest = (omega (arith, w, le, h.deeper), h.deepest);
  named = pushed worst depth other q qs r h.named;
}

new-IsNamed :
    (worst : Option Text) (depth waiting : ℕ) (other : Text) (q : Queue) (qs : Store Queue)
    (r : QueueHealth)
    → waiting_in q ≡ waiting
    → ((r.worst_queue ≡ some other) × (r.worst_depth ≡ waiting))
      ⊎ ((name : Text) × (r.worst_queue ≡ some name) × IsNamed name r.worst_depth qs)
    → (name : Text) × (r.worst_queue ≡ some name) × IsNamed name r.worst_depth ((other, q) ∷ qs)
new-IsNamed worst depth waiting other q qs r w (inl (h, k)) = (other, h, inl (refl, w ∙ sym k))
new-IsNamed worst depth waiting other q qs r w (inr (name, h, k)) = (name, h, inr k)

new_worst :
    (total depth waiting : ℕ) (worst : Option Text) (other : Text) (q : Queue) (qs : Store Queue)
    (r : QueueHealth)
    → waiting_in q ≡ waiting
    → depth < waiting
    → IsRight (total + waiting) (some other) waiting qs r
    → IsRight total worst depth ((other, q) ∷ qs) r
unfolding waiting_total
new_worst total depth waiting worst other q qs r w lt h = record {
  added = omega (arith, h.added, w);
  judged = h.judged;
  deeper = omega (arith, lt, h.deeper);
  deepest = (omega (arith, w, h.deeper), h.deepest);
  named = inr (new-IsNamed worst depth waiting other q qs r w h.named);
}

add_up-IsRight :
    (qs : Store Queue) (total depth : ℕ) (worst : Option Text)
    → IsRight total worst depth qs (add_up total worst depth (get_all_queue_stats qs))
unfolding add_up get_all_queue_stats get_queue_stats waiting_total
add_up-IsRight [] total depth worst = record {
  added = omega arith;
  judged = refl;
  deeper = omega arith;
  deepest = tt;
  named = inl (refl, refl);
}
add_up-IsRight ((name, unreadable) ∷ qs) total depth worst =
    let ih = add_up-IsRight qs total depth worst in
    record {
      added = omega (arith, ih.added);
      judged = ih.judged;
      deeper = ih.deeper;
      deepest = (omega arith, ih.deepest);
      named =
          pushed worst depth name unreadable qs (add_up total worst depth (get_all_queue_stats qs))
            ih.named;
    }
add_up-IsRight ((name, counted waiting a d f c) ∷ qs) total depth worst =
    elim (Bool-cases (ltb depth waiting)) [
      | inl e ↦ rw e (
          new_worst total depth waiting worst name (counted waiting a d f c) qs _ refl
            (ltb→lt depth waiting e) (add_up-IsRight qs (total + waiting) waiting (some name)))
      | inr e ↦ rw e (
          kept_worst total depth waiting worst name (counted waiting a d f c) qs _ refl
            (ground (arith, e)) (add_up-IsRight qs (total + waiting) depth worst))
    ]

-- When the counts are collected, the backlog is the sum of the waiting jobs of the queues that could be
-- read, it is healthy exactly if the sum is at most 1000, no queue waits deeper than the worst depth,
-- and a queue that is named as the worst waits as deep as that; none is named only if no job waits.
pub backlog_right :
    (qs : Store Queue)
    → let r = get_queue_health false qs in
      (r.total_backlog ≡ waiting_total qs)
      × ((r.healthy ≡ true) ↔ (waiting_total qs ≤ 1000))
      × NoneDeeper r.worst_depth qs
      × (((r.worst_queue ≡ none) × (r.worst_depth ≡ 0))
          ⊎ ((name : Text) × (r.worst_queue ≡ some name) × IsNamed name r.worst_depth qs))
unfolding get_queue_health
backlog_right qs =
    let h = add_up-IsRight qs 0 0 none in
    let total : (add_up 0 none 0 (get_all_queue_stats qs)).total_backlog ≡ waiting_total qs =
      omega (arith, h.added) in
    (total, ground (arith, h.judged, total), h.deepest, h.named)
