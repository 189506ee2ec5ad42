-- ===== src/Auth.antt =====
-- planbuddy_v9/controllers/authController.js: accounts, sign-in, password resets and sessions.
pub mod Accounts
pub mod Login
pub mod Guessing
pub mod Passwords
pub mod Sessions
pub mod Profiles
pub mod Revoking
pub mod Resetting
pub mod Access
pub mod Gatekeeping
