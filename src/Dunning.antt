-- ===== src/Dunning.antt =====
-- Retries of failed payments: src/dunning.
pub mod Schedule
pub mod Service
pub mod Books
pub mod Payment
pub mod Chains
