-- ===== src/Idempotency/Requests.antt =====
-- idempotency.js: `runIdempotency`, split where the request's handler runs. `begin` goes up to
-- `next()` or an early reply; `finish` is the intercepted `res.json`. Commands that may throw come
-- with a flag that says whether they do. Times are in seconds.
use helloplanbuddy_cmd_plan.Base.{
  ℕ, ◌+◌, Bool, true, false, not, ◌&&◌, Option, none, some, ltb, leb, if◌then◌else◌,
}
use helloplanbuddy_cmd_plan.Base.Text.{Text, Store, lookup, insert, erase}
use helloplanbuddy_cmd_plan.Idempotency.Conflicts.{Abuse, Limits, live_flag, track_conflict}
use helloplanbuddy_cmd_plan.Idempotency.Keys.{Request, scoped_key}

-- What `JSON.parse` finds in a stored entry.
pub data Saved : Type 0 where
  good : ℕ → ℕ → Saved
  corrupt : Saved

pub record Stored : Type 0 where
  pub saved : Saved
  pub expires : ℕ

-- Redis under DONE_PREFIX and LOCK_PREFIX, and the table idempotency_keys.
pub record World : Type 0 where
  pub redis_ready : Bool
  pub done : Store Stored
  pub locks : Store ℕ
  pub rows : Store Stored
  pub abuse : Abuse

-- `digest` is the database key of a scoped key, a SHA-256 with a prefix; `ttl_s` is RESPONSE_TTL.
pub record Config : Type 0 where
  pub digest : Text → Text
  pub ttl_s : ℕ
  pub limits : Limits

abbrev pub lock_ttl_s : ℕ
lock_ttl_s = 30

pub record BeginFaults : Type 0 where
  pub get_fails : Bool
  pub del_fails : Bool
  pub row_fails : Bool
  pub lock_fails : Bool
  pub track_fails : Bool

pub record FinishFaults : Type 0 where
  pub cache_fails : Bool
  pub row_fails : Bool
  pub release_fails : Bool

-- `replied` and `conflicted` answer at once; `passed` and `captured` call `next()`, the latter with
-- the interception of `res.json`, and say whether the lock was taken.
pub data Outcome : Type 0 where
  replied : ℕ → ℕ → Outcome
  conflicted : Outcome
  passed : Outcome
  captured : Bool → Outcome

-- An entry that has not expired.
abbrev pub live : ℕ → Option Stored → Option Saved
live now none = none
live now (some s) = if ltb now s.expires then some s.saved else none

abbrev pub cached : BeginFaults → ℕ → Text → World → Option Saved
cached f now key w = if w.redis_ready && not f.get_fails then live now (lookup key w.done) else none

-- `dbGet`
abbrev pub db_get : Config → BeginFaults → ℕ → Text → World → Option Saved
db_get c f now key w = if f.row_fails then none else live now (lookup (c.digest key) w.rows)

-- Step 2: the lock. A conflict is counted against the address.
abbrev pub acquire : Config → Request → BeginFaults → ℕ → Text → World → World × Outcome
acquire c q f now key w =
    if w.redis_ready
    then (if f.lock_fails
        then (w, passed)
        else (if live_flag (lookup key w.locks) now
            then (
              record w { abuse = (track_conflict c.limits (not f.track_fails) now q.ip w.abuse).0 },
              conflicted,
            )
            else (record w { locks = insert key (now + lock_ttl_s) w.locks }, captured true)))
    else (w, captured false)

abbrev pub after_row :
    Config → Request → BeginFaults → ℕ → Text → World → Option Saved → World × Outcome
after_row c q f now key w none = acquire c q f now key w
after_row c q f now key w (some corrupt) = acquire c q f now key w
after_row c q f now key w (some (good status body)) = (w, replied status body)

-- A corrupt cache entry is deleted.
abbrev pub drop_cached : BeginFaults → Text → World → World
drop_cached f key w = if f.del_fails then w else record w { done = erase key w.done }

abbrev pub after_cache :
    Config → Request → BeginFaults → ℕ → Text → World → Option Saved → World × Outcome
after_cache c q f now key w none = after_row c q f now key w (db_get c f now key w)
after_cache c q f now key w (some corrupt) =
    let v = drop_cached f key w in after_row c q f now key v (db_get c f now key v)
after_cache c q f now key w (some (good status body)) = (w, replied status body)

unfoldable pub begin_key : Config → Request → BeginFaults → ℕ → Text → World → World × Outcome
begin_key c q f now key w = after_cache c q f now key w (cached f now key w)

unfoldable pub begin : Config → Request → Text → BeginFaults → ℕ → World → World × Outcome
unfolding begin_key
begin c q raw f now w = begin_key c q f now (scoped_key q raw) w

-- `dbSet`: the update on conflict sets the response and leaves `expires_at`.
abbrev pub upsert : Option Stored → Saved → ℕ → Stored
upsert none s expires = record { saved = s; expires = expires }
upsert (some old) s expires = record old { saved = s }

abbrev pub save : Config → FinishFaults → Bool → Saved → ℕ → Text → World → World
save c f use_redis s now key w = record w {
  done =
      if use_redis && w.redis_ready && not f.cache_fails
      then insert key (record { saved = s; expires = now + c.ttl_s }) w.done
      else w.done;
  rows =
      if f.row_fails
      then w.rows
      else insert (c.digest key) (upsert (lookup (c.digest key) w.rows) s (now + c.ttl_s)) w.rows;
}

-- `releaseLock`, which deletes the lock whoever holds it.
abbrev pub release : FinishFaults → Bool → Text → World → World
release f lock key w =
    if lock && w.redis_ready && not f.release_fails
    then record w { locks = erase key w.locks }
    else w

abbrev pub is_success : ℕ → Bool
is_success status = leb 200 status && ltb status 300

-- `captureIdempotentResponse`, for a request that was captured with `lock`.
unfoldable pub finish_key : Config → FinishFaults → Bool → ℕ → ℕ → ℕ → Text → World → World
finish_key c f lock status body now key w =
    release f lock key (if is_success status then save c f lock (good status body) now key w else w)

unfoldable pub finish : Config → Request → Text → FinishFaults → Bool → ℕ → ℕ → ℕ → World → World
unfolding finish_key
finish c q raw f lock status body now w = finish_key c f lock status body now (scoped_key q raw) w
