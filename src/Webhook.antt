-- ===== src/Webhook.antt =====
-- planbuddy_v9/controllers/razorpayWebhookController.js: the intake of Razorpay's webhooks, and what
-- a payment event does to the payment and its booking.
pub mod Ingest
pub mod Dedup
pub mod Authentic
pub mod Payments
pub mod Refunds
pub mod Refunding
pub mod Settling
