-- ===== src/Middleware.antt =====
-- internal/api/middleware: what stands in front of a handler: the authentication of a request, the
-- checks of its permission and its database, and the limit on failed logins.
pub mod Context
pub mod Access
pub mod Keys
pub mod RateLimit
mod Tests
