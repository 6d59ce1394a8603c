-- ===== src/Search/Graph.antt =====
-- search/graph.py: the discovery graph around a seed record. Weights are any type with an order and an
-- addition; ids are ordered as Python orders texts.
pub mod Edges
pub mod Connected
pub mod Reaches
pub mod Found
pub mod Fetch
pub mod Communities
pub mod Build
pub mod Chosen
pub mod Grown
pub mod Bounds
pub mod Built
pub mod Numbered
pub mod Filter
mod Tests
