-- ===== src/Ledger.antt =====
-- The ledger: src/ledger.
pub mod Service
pub mod Posting
pub mod Balance
pub mod Lifecycle
