-- ===== src/Surcharges.antt =====
-- The settings of surcharges: src/surcharges.
pub mod Service
pub mod Requests
