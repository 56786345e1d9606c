-- ===== src/Suggest.antt =====
-- internal/suggest: risk levels, command types and the risk evaluator.
pub mod Types
pub mod Risk
pub mod Distance
pub mod Trie
pub mod Fuzzy
pub mod Templates
pub mod Engine
mod Tests
