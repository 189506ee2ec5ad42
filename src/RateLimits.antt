-- ===== src/RateLimits.antt =====
-- planbuddy_v9/middleware/rateLimit.js: the rate limiters of the API.
pub mod Limiters
pub mod FailClosed
