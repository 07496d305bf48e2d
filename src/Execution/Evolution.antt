-- ===== src/Execution/Evolution.antt =====
-- The contract that rows only move along their lifecycle.
pub mod Steps
pub mod Rows
pub mod Updates
