-- ===== src/Payments.antt =====
-- planbuddy_v9/controllers/paymentController.js: orders of the payment provider.
pub mod Orders
pub mod Guards
