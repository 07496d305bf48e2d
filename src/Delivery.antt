-- ===== src/Delivery.antt =====
-- The delivery outbox: backend/app/repositories/delivery.py, services/delivery_service.py and
-- workers/delivery_worker.py.
pub mod Rows
pub mod Lifecycle
pub mod Columns
pub mod Outbox
pub mod Worker
pub mod Sweep
pub mod Service
pub mod Promises
pub mod Methods
pub mod Found
pub mod Cancel
pub mod Enqueue
pub mod Budget
pub mod Passes
pub mod Rounds
mod Examples
