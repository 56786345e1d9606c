-- ===== src/Agent.antt =====
-- internal/agent: the agent that lets a language model choose a tool.
pub mod Text
pub mod Memory
pub mod Tools
pub mod Chat
mod Tests
