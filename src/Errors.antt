-- ===== src/Errors.antt =====
-- planbuddy_v9/middleware: errorHandler.js, csrfProtection.js and internalIpGuard.js.
pub mod Handler
pub mod Masking
