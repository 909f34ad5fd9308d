-- ===== src/Graph.antt =====
-- The workflow graph (crates/graph): its edges, the topological sort of its nodes, the kinds of its edges and
-- the statistics of an edge.
pub mod Types
pub mod Topology
pub mod Classify
pub mod Pins
pub mod Cycle
pub mod Pull
pub mod EdgeWindow
mod Tests
