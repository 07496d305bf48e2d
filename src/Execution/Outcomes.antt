-- ===== src/Execution/Outcomes.antt =====
-- What each method returns and leaves, branch by branch.
pub mod Finish
pub mod Refusals
pub mod Claim
pub mod Cancelling
pub mod Clean
pub mod Queued
pub mod Requeued
