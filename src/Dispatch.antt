-- ===== src/Dispatch.antt =====
-- backend/app/services/schedule_dispatcher.py and the reservation of repositories/workflow_trigger.py.
pub mod Triggers
pub mod Sweep
pub mod Ticks
pub mod Counts
pub mod Due
mod Examples
