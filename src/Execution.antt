-- ===== src/Execution.antt =====
-- Workflow executions: the queue, its guarded transitions, and the service over them.
pub mod Repository
pub mod Service
pub mod Calls
pub mod Lifecycle
pub mod Statements
pub mod Guarantee
pub mod Methods
pub mod Evolution
pub mod Consistency
pub mod Histories
pub mod Outcomes
pub mod Worker
pub mod Sweeping
pub mod Landing
mod Examples
mod WorkerExamples
