-- ===== src/Agents.antt =====
-- backend/app/agents: the state machine of agent runs, and the guarded UPDATEs of their repository.
pub mod StateMachine
pub mod Runs
pub mod Transitions
pub mod Columns
pub mod Examples
