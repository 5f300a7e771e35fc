-- ===== src/Gateways.antt =====
-- The adapters of the payment gateways: src/gateway.
pub mod Resilience
pub mod Paging
pub mod Pages
pub mod Listing
