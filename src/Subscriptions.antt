-- ===== src/Subscriptions.antt =====
-- Subscriptions: src/subscriptions.
pub mod Period
pub mod Service
pub mod Cycles
pub mod Events
pub mod Seeding
