-- ===== src/Pipeline.antt =====
-- The sales pipeline: backend/app/services/pipeline_service.py and repositories/pipeline.py.
pub mod Board
pub mod Stages
pub mod Reconcile
pub mod Seeded
pub mod Found
pub mod Placement
pub mod Statuses
pub mod Removal
pub mod Order
mod Examples
