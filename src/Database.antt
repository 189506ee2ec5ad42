-- ===== src/Database.antt =====
-- planbuddy_v9/config/db.js: the database client.
pub mod Transactions
pub mod Retrying
pub mod Sizing
