-- ===== src/Tokens.antt =====
-- planbuddy_v9/utils/jwt.js: the revocation of tokens, and the durations of the configuration.
pub mod Durations
pub mod Revocation
pub mod Printing
pub mod Revoked
