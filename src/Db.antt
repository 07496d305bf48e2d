-- ===== src/Db.antt =====
-- The database that the services of backend/app/services share, and the monad of their sessions.
pub mod Tables
pub mod Session
pub mod Rows
pub mod Store
pub mod Search
