-- ===== src/Tests/Journal.antt =====
-- Runs of the journal of side effects of atomic-engine.js.
use helloplanbuddy_cmd_plan.Base.{◌≡◌, refl, false, none, some, List, [], ◌∷◌, arith}
use helloplanbuddy_cmd_plan.Engine.Journal.{
  executing, Effect, already, find_effect, acquire_slot, complete_effect, start_effect,
}
use helloplanbuddy_cmd_plan.Engine.Replaying.{
  Call, opens, starts, completes, fails, take_calls, completed_skips,
}

abbrev refund : Effect
refund = record (start_effect 5 11 77) { state = executing; executed_at = some 1 }

abbrev calls : List Call
calls =
    opens 6 12 78 ∷ starts 6 20 ∷ completes 6 none 0 none 21 ∷ fails 6 3 false ∷ opens 5 11 79 ∷ []

completed_skips_example :
    (acquire_slot 5 11 80 40
      (take_calls calls (complete_effect 5 (some 9) 13 none 10 (refund ∷ [])))).1
    ≡ already (some 9) 77
unfolding find_effect
completed_skips_example =
    completed_skips 5 (some 9) 13 10 none refund calls 11 80 40 (refund ∷ []) refl
      (tt, ((λ e. ground arith), ((λ e. ground arith), ((λ e. ground arith), (tt, tt)))))
