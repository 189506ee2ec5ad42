-- ===== src/Worker/Draining.antt =====
-- The end of a worker's items, and its drain.
use helloplanbuddy_cmd_plan.Base.{
  ℕ, ◌+◌, ◌-◌, ◌≤◌, ◌<◌, ◌≡◌, refl, ap, ◌∙◌, Bool, true, false, List, [], ◌∷◌, arith, length,
}
use helloplanbuddy_cmd_plan.Engine.Jobs.{Job, Draw}
use helloplanbuddy_cmd_plan.Worker.{end_item}
use helloplanbuddy_cmd_plan.Worker.Lifecycle.{
  Running, stop, await_drain, notify_drain_if_idle, Ending, succeeds, loses_commit, throws, World,
  execute_item, end_execution,
}

-- The end of one item: which, with its draw, its time and how it ends.
pub record Finished : Type 0 where
  pub job : Job
  pub draw : Draw
  pub now : ℕ
  pub ending : Ending

-- Items end one after the other, and no recording of a failure throws, which would end the process.
unfoldable pub end_all : List Finished → World → World
end_all [] x = x
end_all (f ∷ fs) x = end_all fs (end_execution f.job f.draw f.now f.ending false x)

-- What an item does to the worker before its `finally`.
executed_running :
    (job : Job) (d : Draw) (now : ℕ) (ending : Ending) (b : Bool) (x : World)
    → let r = (execute_item job d now ending b x).running in
      (r.worker ≡ x.running.worker)
      × ((r.waiting_drains ≡ x.running.waiting_drains)
          × (r.resolved_drains ≡ x.running.resolved_drains))
unfolding execute_item
executed_running job d now (succeeds result) b x = (refl, (refl, refl))
executed_running job d now (loses_commit f) true x = (refl, (refl, refl))
executed_running job d now (loses_commit f) false x = (refl, (refl, refl))
executed_running job d now (throws f) true x = (refl, (refl, refl))
executed_running job d now (throws f) false x = (refl, (refl, refl))

-- The slots that are taken and the drains that wait or are resolved, after the end of an item.
ended_counts :
    (f : Finished) (x : World)
    → let r = (end_execution f.job f.draw f.now f.ending false x).running in
      (r.worker.active_slots ≡ x.running.worker.active_slots - 1)
      × (r.waiting_drains + r.resolved_drains
          ≡ x.running.waiting_drains + x.running.resolved_drains)
      × (x.running.worker.active_slots ≤ 1 → r.waiting_drains ≡ 0)
      × (1 < x.running.worker.active_slots → r.waiting_drains ≡ x.running.waiting_drains)
unfolding end_execution notify_drain_if_idle end_item
ended_counts f x =
    let e = executed_running f.job f.draw f.now f.ending false x in
    ground (arith, ap (λ w. w.active_slots) e.0, e.1.0, e.1.1)

-- After as many items as these ended: the drains wait while slots are taken, and no longer.
all_ended :
    (fs : List Finished) (x : World)
    → length fs ≤ x.running.worker.active_slots
    → (x.running.worker.active_slots ≡ 0 → x.running.waiting_drains ≡ 0)
    → let r = (end_all fs x).running in
      (r.worker.active_slots ≡ x.running.worker.active_slots - length fs)
      × (r.waiting_drains + r.resolved_drains
          ≡ x.running.waiting_drains + x.running.resolved_drains)
      × (length fs < x.running.worker.active_slots → r.waiting_drains ≡ x.running.waiting_drains)
      × (x.running.worker.active_slots ≡ length fs → r.waiting_drains ≡ 0)
unfolding end_all
all_ended [] x count idle = (omega arith, refl, λ h. refl, λ h. idle h)
all_ended (f ∷ fs) x count idle =
    let (slots, total, last, before) = ended_counts f x in
    let y = end_execution f.job f.draw f.now f.ending false x in
    let (slots', total', before', last') =
      all_ended fs y (omega (arith, slots, count)) (λ h. last (omega (arith, slots, count, h))) in
    (
      omega (arith, slots, slots', count),
      total' ∙ total,
      (λ h. before' (omega (arith, slots, h)) ∙ before (omega (arith, h))),
      (λ h. last' (omega (arith, slots, h))),
    )

stopped_counts :
    (r : Running)
    → let t = stop r in
      (t.worker.active_slots ≡ r.worker.active_slots)
      × (t.waiting_drains + t.resolved_drains ≡ r.waiting_drains + r.resolved_drains + 1)
      × (r.worker.active_slots ≡ 0 → t.waiting_drains ≡ r.waiting_drains)
      × (0 < r.worker.active_slots → t.waiting_drains ≡ r.waiting_drains + 1)
unfolding stop await_drain
stopped_counts r = ground arith

-- When a worker on whose drain nothing waits is stopped and then items that it had taken end, in whatever
-- way each of them ends, as long as the recording of no failure throws: the drain waits while slots are
-- taken, and is resolved once, with no slot taken, when as many items have ended as it had taken.
pub drain_completes :
    (fs : List Finished) (x : World)
    → length fs ≤ x.running.worker.active_slots
    → x.running.waiting_drains ≡ 0
    → let r = (end_all fs (record x { running = stop x.running })).running in
      (r.worker.active_slots ≡ x.running.worker.active_slots - length fs)
      × (length fs < x.running.worker.active_slots
          → (r.waiting_drains ≡ 1) × (r.resolved_drains ≡ x.running.resolved_drains))
      × (x.running.worker.active_slots ≡ length fs
          → (r.waiting_drains ≡ 0) × (r.resolved_drains ≡ x.running.resolved_drains + 1))
drain_completes fs x count idle =
    let y = record x { running = stop x.running } in
    let (slots, total, none_taken, some_taken) = stopped_counts x.running in
    let (slots', total', before, last) =
      all_ended fs y (omega (arith, slots, count))
        (λ h. none_taken (omega (arith, slots, h)) ∙ idle) in
    (
      omega (arith, slots, slots'),
      (λ h.
          let waits = before (omega (arith, slots, h)) in
          let one = some_taken (omega (arith, h)) in
          (omega (arith, waits, one, idle), omega (arith, waits, one, idle, total, total'))),
      (λ h.
          let gone = last (omega (arith, slots, h)) in
          (gone, omega (arith, gone, idle, total, total'))),
    )
