-- ===== src/Server.antt =====
-- planbuddy_v9/server.js: start and shutdown of the HTTP server.
pub mod Startup
pub mod Shutdown
pub mod Ending
