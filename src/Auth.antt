-- ===== src/Auth.antt =====
-- internal/auth: roles and permissions, resource permissions, database access.
pub mod Permission
pub mod Resource
pub mod DbAccess
pub mod ApiKey
mod Tests
