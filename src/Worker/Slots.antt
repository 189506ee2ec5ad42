-- ===== src/Worker/Slots.antt =====
-- How many items a worker takes.
use helloplanbuddy_cmd_plan.Base.{
  ℕ, ◌+◌, ◌≤◌, ◌≡◌, refl, ap, inl, inr, Bool, true, false, not, ◌&&◌, Option, some, List, [], ◌∷◌,
  arith, leb, if◌then◌else◌, Bool-cases, length,
}
use helloplanbuddy_cmd_plan.Queues.{rate_limit_enabled}
use helloplanbuddy_cmd_plan.Adaptive.{Slot, can_process}
use helloplanbuddy_cmd_plan.Engine.Jobs.{Job}
use helloplanbuddy_cmd_plan.Engine.Claim.{Request, ids, atomic_claim}
use helloplanbuddy_cmd_plan.Engine.Claiming.{Distinct, claim_bounded}
use helloplanbuddy_cmd_plan.Worker.{
  Worker, rests, asks, Poll, ask_slots, ask_limit, ask_circuit, ask, receive,
}

-- What a poll that asks has found.
abbrev pub HasRoom : Worker → Poll → Type 0
HasRoom w p = elim p.2 [
  | rests timer ↦ Unit
  | asks q ↦
      (w.running ≡ true)
      × (w.draining ≡ false)
      × (p.1.active_slots ≡ w.active_slots)
      × (w.active_slots + q.batch_size ≤ p.0.current)
]

asking_slots :
    (connected : Bool) (s : Slot) (w v : Worker)
    → w.running ≡ true
    → w.draining ≡ false
    → v.active_slots ≡ w.active_slots
    → HasRoom w (ask_slots connected s v)
asking_slots connected s w v r d e = elim (Bool-cases (leb s.current v.active_slots)) [
  | inl full ↦ rw full tt
  | inr free ↦ rw free (r, d, e, ground arith)
]

asking_limit :
    (connected allowed : Bool) (s : Slot) (w v : Worker)
    → w.running ≡ true
    → w.draining ≡ false
    → v.active_slots ≡ w.active_slots
    → HasRoom w (ask_limit connected allowed s v)
asking_limit connected allowed s w v r d e =
    elim (Bool-cases (rate_limit_enabled v.key && not allowed)) [
      | inl limited ↦ rw limited tt
      | inr free ↦ rw free (asking_slots connected s w v r d e)
    ]

asking_circuit :
    (connected allowed : Bool) (w v : Worker) (p : Slot × Bool)
    → w.running ≡ true
    → w.draining ≡ false
    → v.active_slots ≡ w.active_slots
    → HasRoom w (ask_circuit connected allowed v p)
asking_circuit connected allowed w v (s, true) r d e = asking_limit connected allowed s w v r d e
asking_circuit connected allowed w v (s, false) r d e = tt

either :
    (w : Worker) (b : Bool) (x y : Poll)
    → (b ≡ true → HasRoom w x)
    → (b ≡ false → HasRoom w y)
    → HasRoom w (if b then x else y)
either w true x y f g = f refl
either w false x y f g = g refl

asking :
    (connected allowed : Bool) (now : ℕ) (s : Slot) (w : Worker)
    → HasRoom w (ask connected allowed now s w)
unfolding ask
asking connected allowed now s w =
    either w w.running _ _
      (λ r.
        either w w.draining _ _ (λ d. tt)
          (λ d.
            asking_circuit connected allowed w (record w { poll_wakeups = w.poll_wakeups + 1 })
              (can_process w.key now s) r d refl))
      (λ r. tt)

received_slots :
    (connected : Bool) (q : Request) (rows : List Job) (w : Worker)
    → (receive connected q (some rows) w).0.active_slots ≡ w.active_slots + length rows
unfolding receive
received_slots connected q [] w = ground arith
received_slots connected q (r ∷ rows) w = refl

asked :
    (w : Worker) (p : Poll) (q : Request)
    → HasRoom w p
    → p.2 ≡ asks q
    → (w.running ≡ true)
      × (w.draining ≡ false)
      × (p.1.active_slots ≡ w.active_slots)
      × (w.active_slots + q.batch_size ≤ p.0.current)
asked w (s, v, asks q) k h e =
    let same : q ≡ k = cc in
    let batch : q.batch_size ≡ k.batch_size = ap (λ r. r.batch_size) same in
    let (r, d, slots, room) = h in (r, d, slots, omega (arith, batch, room))
asked w (s, v, rests timer) k h e = absurd (ground arith)

-- A poll asks for rows only while the worker runs and is not draining, and, if no other poll ran in
-- between, the items that it then starts do not raise the active ones above the concurrency that the
-- controller allows, whatever rows the table holds.
pub poll_within_concurrency :
    (connected allowed : Bool) (now : ℕ) (s : Slot) (w : Worker) (q : Request) (drain : Option Bool)
    (clock at : ℕ) (locked : List ℕ) (t : List Job)
    → (ask connected allowed now s w).2 ≡ asks q
    → Distinct (ids t)
    → let (slot, v, next) = ask connected allowed now s w in
      (w.running ≡ true)
      × (w.draining ≡ false)
      × ((receive connected q (some (atomic_claim q drain clock at locked t).1) v).0.active_slots
          ≤ slot.current)
poll_within_concurrency connected allowed now s w q drain clock at locked t h d =
    let (r, dr, same, room) =
      asked w (ask connected allowed now s w) q (asking connected allowed now s w) h in
    let few = (claim_bounded q drain clock at locked t d).0 in
    (
      r,
      dr,
      rw
          (received_slots connected q (atomic_claim q drain clock at locked t).1
            (ask connected allowed now s w).1)
          (omega (arith, same, room, few)),
    )
