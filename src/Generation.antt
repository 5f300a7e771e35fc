-- ===== src/Generation.antt =====
-- `generateInvoicesForDueSubscriptions` of src/invoices/invoices.service.ts: the two loops of the
-- daily billing run.
pub mod Service
pub mod Counts
