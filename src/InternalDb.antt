-- ===== src/InternalDb.antt =====
-- internal/internaldb/store.go: the API keys of the internal database. Their table in SQLite is a parameter.
pub mod Slices
pub mod Keys
