-- ===== src/Store.antt =====
-- The shared state: rows of the tables, and actions that read and write them.
pub mod Rows
pub mod Logged
pub mod Reconciled
pub mod Action
pub mod Ensures
pub mod Constraints
pub mod Moves
