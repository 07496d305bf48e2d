-- ===== src/Execution/Service.antt =====
-- backend/app/services/workflow_execution_service.py: the helpers that every method shares. The
-- methods are in the child modules, one for each group.
pub mod Helpers
pub mod Queueing
pub mod Running
pub mod Requeue
pub mod Cancel
