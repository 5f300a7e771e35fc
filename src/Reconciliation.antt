-- ===== src/Reconciliation.antt =====
-- Comparison of the payments in the ledger with the gateway's settlements: src/reconciliation.
pub mod Compare
pub mod Service
pub mod Lookup
pub mod Differences
pub mod Reports
pub mod Sums
pub mod Totals
pub mod Stored
pub mod Reruns
