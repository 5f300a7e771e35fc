-- ===== src/Charges.antt =====
-- Payments of invoices: src/charges.
pub mod Service
pub mod OneTime
pub mod Books
pub mod Settling
pub mod Payment
pub mod Idempotency
pub mod Composing
pub mod Onboarding
pub mod Liveness
