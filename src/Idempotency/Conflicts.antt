-- ===== src/Idempotency/Conflicts.antt =====
-- Idempotencyconflictlimiter.js: the conflict counter and the block flag of an address, in Redis.
use helloplanbuddy_cmd_plan.Base.{
  ℕ, suc, ◌+◌, ◌≤◌, ◌<◌, ◌≡◌, ◌∙◌, Bool, true, false, Option, none, some, List, [], ◌∷◌, arith, ltb,
  leb, ◌==◌, if◌then◌else◌, length, All,
}
use helloplanbuddy_cmd_plan.Base.Text.{Text, Store, lookup, insert, lookup-insert_self}

-- CONFLICT_LIMIT, WINDOW_S and BLOCK_S, read from the environment or 5, 60 and 300.
pub record Limits : Type 0 where
  pub conflict_limit : ℕ
  pub window_s : ℕ
  pub block_s : ℕ

abbrev pub default_limits : Limits
default_limits = record { conflict_limit = 5; window_s = 60; block_s = 300 }

-- A Redis counter and the time at which it expires, if one was set.
pub record Counter : Type 0 where
  pub count : ℕ
  pub expires : Option ℕ

-- The keys under COUNTER_PREFIX and BLOCK_PREFIX. `ready` is `isRedisReady`.
pub record Abuse : Type 0 where
  pub counters : Store Counter
  pub blocks : Store ℕ

abbrev pub expired : Option ℕ → ℕ → Bool
expired none now = false
expired (some e) now = leb e now

abbrev pub live_count : Option Counter → ℕ → ℕ
live_count none now = 0
live_count (some c) now = if expired c.expires now then 0 else c.count

abbrev pub live_expiry : Option Counter → ℕ → Option ℕ
live_expiry none now = none
live_expiry (some c) now = if expired c.expires now then none else c.expires

-- What `INCR` leaves, and `EXPIRE` after the first conflict of a window.
abbrev pub count_up : Limits → ℕ → Option Counter → Counter
count_up l now c =
    let n = live_count c now + 1 in
    record { count = n; expires = if n == 1 then some (now + l.window_s) else live_expiry c now }

pub record Verdict : Type 0 where
  pub blocked : Bool
  pub conflicts : ℕ

-- `trackConflict`; `works` is false if Redis is not ready or a command throws.
unfoldable pub track_conflict : Limits → Bool → ℕ → Text → Abuse → Abuse × Verdict
track_conflict l works now ip a =
    let c = count_up l now (lookup ip a.counters) in
    let counted = record a { counters = insert ip c a.counters } in
    if works
    then (
      if leb l.conflict_limit c.count
          then record counted { blocks = insert ip (now + l.block_s) a.blocks }
          else counted,
      record { blocked = leb l.conflict_limit c.count; conflicts = c.count },
    )
    else (a, record { blocked = false; conflicts = 0 })

abbrev pub live_flag : Option ℕ → ℕ → Bool
live_flag none now = false
live_flag (some e) now = ltb now e

-- `isBlocked`
unfoldable pub is_blocked : Bool → ℕ → Text → Abuse → Bool
is_blocked works now ip a = if works then live_flag (lookup ip a.blocks) now else false

-- The middleware of `conflictLimiter`: `none` is `next()`, and the number is the status.
unfoldable pub conflict_limiter : Bool → ℕ → Text → Abuse → Option ℕ
unfolding is_blocked
conflict_limiter works now ip a = if is_blocked works now ip a then some 429 else none

-- Conflicts of one address at the given times.
unfoldable pub track_all : Limits → Text → List ℕ → Abuse → Abuse
track_all l ip [] a = a
track_all l ip (now ∷ times) a = track_all l ip times (track_conflict l true now ip a).0

-- The counter of an address counts `n` conflicts in a window that ends at `e`.
abbrev pub Counts : Text → ℕ → ℕ → Abuse → Type 0
Counts ip n e a = lookup ip a.counters ≡ some (record { count = n; expires = some e })

counters-track :
    (l : Limits) (now : ℕ) (ip : Text) (a : Abuse)
    → (track_conflict l true now ip a).0.counters
      ≡ insert ip (count_up l now (lookup ip a.counters)) a.counters
unfolding track_conflict
counters-track l now ip a = ground arith

counted-track :
    (l : Limits) (now : ℕ) (ip : Text) (a : Abuse)
    → lookup ip (track_conflict l true now ip a).0.counters
      ≡ some (count_up l now (lookup ip a.counters))
counted-track l now ip a = rw (counters-track l now ip a) (lookup-insert_self ip _ a.counters)

track_next :
    (l : Limits) (now e n : ℕ) (ip : Text) (a : Abuse)
    → Counts ip (suc n) e a
    → now < e
    → Counts ip (suc (suc n)) e (track_conflict l true now ip a).0
track_next l now e n ip a h lt = counted-track l now ip a ∙ rw h (ground arith)

track_first :
    (l : Limits) (now : ℕ) (ip : Text) (a : Abuse)
    → live_count (lookup ip a.counters) now ≡ 0
    → Counts ip 1 (now + l.window_s) (track_conflict l true now ip a).0
track_first l now ip a h = counted-track l now ip a ∙ ground arith

track_window :
    (l : Limits) (e n : ℕ) (ip : Text) (times : List ℕ) (a : Abuse)
    → Counts ip (suc n) e a
    → All (λ t. t < e) times
    → Counts ip (suc (n + length times)) e (track_all l ip times a)
unfolding track_all
track_window l e n ip [] a h b = h ∙ ground arith
track_window l e n ip (t ∷ ts) a h b =
    track_window l e (suc n) ip ts (track_conflict l true t ip a).0 (track_next l t e n ip a h b.0)
      b.1
    ∙ ground arith

reach_limit :
    (l : Limits) (e n now later : ℕ) (ip : Text) (a : Abuse)
    → Counts ip (suc n) e a
    → now < e
    → l.conflict_limit ≤ n + 2
    → later < now + l.block_s
    → ((track_conflict l true now ip a).1.blocked ≡ true)
      × (conflict_limiter true later ip (track_conflict l true now ip a).0 ≡ some 429)
unfolding track_conflict conflict_limiter
reach_limit l e n now later ip a h lt lim soon =
    (ground arith, ground (arith, lookup-insert_self ip (now + l.block_s) a.blocks))

-- When an address whose counter is new or has run out conflicts at `first`, at each of `times` and
-- at `last`, all within one window, and these are at least as many conflicts as the limit, then the
-- last one reports it as blocked, and the middleware answers 429 for the block's whole duration.
pub repeated_conflicts_block :
    (l : Limits) (first last later : ℕ) (times : List ℕ) (ip : Text) (a : Abuse)
    → live_count (lookup ip a.counters) first ≡ 0
    → All (λ t. t < first + l.window_s) times
    → last < first + l.window_s
    → l.conflict_limit ≤ length times + 2
    → later < last + l.block_s
    → let b = track_all l ip (first ∷ times) a in
      ((track_conflict l true last ip b).1.blocked ≡ true)
      × (conflict_limiter true later ip (track_conflict l true last ip b).0 ≡ some 429)
unfolding track_all
repeated_conflicts_block l first last later times ip a new window lt lim soon =
    reach_limit l (first + l.window_s) (length times) last later ip
      (track_all l ip (first ∷ times) a)
      (track_window l (first + l.window_s) 0 ip times (track_conflict l true first ip a).0
          (track_first l first ip a new) window
        ∙ ground arith)
      lt (omega arith) soon
