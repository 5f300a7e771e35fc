-- ===== src/Refunds.antt =====
-- Refunds: src/refunds.
pub mod Service
pub mod Outcome
pub mod Limits
pub mod Retry
