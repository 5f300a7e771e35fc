-- ===== src/Invoices.antt =====
-- Invoices: src/invoices.
pub mod Repository
pub mod Surcharge
pub mod Service
pub mod Drafts
pub mod Items
pub mod Settlement
pub mod Finalize
pub mod Liveness
pub mod Voiding
pub mod Refresh
