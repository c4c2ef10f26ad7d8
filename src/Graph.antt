-- ===== src/Graph.antt =====
-- The symbol graph: apps/indexer/cmd/graph.go.
pub mod Containers
pub mod Order
pub mod Build
pub mod Links
pub mod Defines
pub mod Rows
mod Tests
