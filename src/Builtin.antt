-- ===== src/Builtin.antt =====
-- backend/app/services/builtin_execution.py: the engine that runs the declarative steps of a workflow
-- in process, and the validator that admits a definition.
pub mod Values
pub mod Runs
pub mod Templates
pub mod Validate
pub mod Engine
pub mod Safe
pub mod Admitted
pub mod Soundness
pub mod Nesting
pub mod Definitions
mod Examples
