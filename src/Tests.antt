-- ===== src/Tests.antt =====
-- The theorems applied at concrete inputs, and test runs of the definitions.
mod Adaptive
mod Breaker
mod Engine
mod Idempotency
mod Booking
mod Webhook
mod Outbox
mod Journal
mod Worker
mod Auth
mod Service
mod Requests
mod Api
mod Infrastructure
mod Config
