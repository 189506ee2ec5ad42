-- ===== src/Config.antt =====
-- The configuration: config/env.js, of which the repository has the copy at
-- grafana/planbuddy_v9/config/env.js, and planbuddy_v9/apply-all-migrations.js.
pub mod Env
pub mod Loading
pub mod Migrations
pub mod Applying
