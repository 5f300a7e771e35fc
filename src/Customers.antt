-- ===== src/Customers.antt =====
-- The customers, as the monolith announces them: src/customers.
pub mod Service
pub mod Rows
pub mod Events
