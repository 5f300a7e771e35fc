-- ===== src/StateMachine.antt =====
-- Statuses and the state machines over them.
pub mod Status
pub mod Tables
pub mod Runs
