-- ===== src/Engine.antt =====
-- atomic-engine.js: the statements on the job tables, the outbox and the journal, with what they keep over every
-- history of calls.
pub mod Table
pub mod Jobs
pub mod Claim
pub mod Claiming
pub mod Outbox
pub mod Relay
pub mod Journal
pub mod Replaying
pub mod Events
pub mod Lifecycle
pub mod Fencing
pub mod Log
pub mod Logging
