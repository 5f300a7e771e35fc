-- ===== src/Webhooks.antt =====
-- Webhooks of the gateways: src/webhooks.
pub mod Service
pub mod Books
pub mod Marks
pub mod Once
