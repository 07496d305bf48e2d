-- ===== src/Cron.antt =====
-- backend/app/services/schedule_cron.py: parsing and evaluating cron expressions.
pub mod Parse
pub mod Calendar
pub mod Fire
mod Examples
