-- ===== src/Executor.antt =====
-- internal/executor: statements run behind the check of their risk, for a caller's scope.
pub mod Execute
pub mod Gate
pub mod Managed
mod Tests
