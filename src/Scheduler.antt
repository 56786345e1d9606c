-- ===== src/Scheduler.antt =====
-- internal/scheduler: cron expressions, the store of the jobs and the loop that runs them.
pub mod Calendar
pub mod Cron
pub mod Store
pub mod Runner
mod Tests
