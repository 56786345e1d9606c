-- ===== src/Graph.antt =====
-- plugins/graph/graph.go: the embedded graph database.
pub mod Store
pub mod Traverse
pub mod Query
pub mod Lifecycle
mod Tests
