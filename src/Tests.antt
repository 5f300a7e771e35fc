-- ===== src/Tests.antt =====
-- The theorems at concrete inputs.
mod Sample
mod Calendars
mod Ledgers
mod Invoicing
mod Payments
mod Settings
mod Monolith
