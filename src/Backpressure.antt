-- ===== src/Backpressure.antt =====
-- The two backpressure middlewares: middleware/backpressure.js and planbuddy_v9/middleware/backpressure.js.
pub mod Tiers
pub mod Shedding
pub mod Counters
pub mod Uncounted
