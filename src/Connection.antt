-- ===== src/Connection.antt =====
-- internal/connection: the manager of the database connections, with the health of each.
pub mod Types
pub mod Manager
pub mod Health
pub mod Tests
