-- ===== src/Credits.antt =====
-- Credits: src/credits.
pub mod Service
pub mod Balances
pub mod Application
pub mod Notes
