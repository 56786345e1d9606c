-- ===== src/Mcp.antt =====
-- internal/mcp: the tools for programs, and the gate that they act through.
pub mod Scope
mod Tests
