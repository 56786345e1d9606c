-- ===== src/Transfer.antt =====
-- internal/transfer: tables copied from one connection to another.
pub mod Types
pub mod Targets
pub mod Sql
pub mod Engine
pub mod Run
pub mod Jobs
mod Tests
