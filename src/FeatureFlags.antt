-- ===== src/FeatureFlags.antt =====
-- The flags of a customer: src/feature-flags.
pub mod Service
pub mod Asked
pub mod Stored
pub mod Requests
