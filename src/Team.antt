-- ===== src/Team.antt =====
-- The members of an organization: backend/app/services/user_service.py.
pub mod Users
pub mod Counts
pub mod Owners
pub mod Changes
mod Examples
