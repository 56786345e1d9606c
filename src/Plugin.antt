-- ===== src/Plugin.antt =====
-- internal/plugin: what a database plugin exchanges with the rest of the program, and the detection of
-- a database's type from a configuration.
pub mod Types
pub mod Detect
