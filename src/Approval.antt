-- ===== src/Approval.antt =====
-- Approvals of gated executions: the requests with their audit log, and the gate that applies a
-- decision to the linked execution.
pub mod Requests
pub mod Service
pub mod Gate
pub mod Deciding
pub mod Finality
pub mod Claims
pub mod Gating
pub mod Sweeps
mod Examples
