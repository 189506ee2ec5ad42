-- ===== src/Idempotency.antt =====
-- planbuddy_v9/middleware/idempotency.js and Idempotencyconflictlimiter.js: replay of completed
-- requests, the lock on requests in flight, and the count of conflicts by address.
pub mod Conflicts
pub mod Keys
pub mod Requests
pub mod Histories
pub mod Entries
pub mod Middleware
pub mod Replay
pub mod Locking
