-- ===== src/Graph.antt =====
-- crates/gemgraph-graph: the property graph over five B+trees.
pub mod Keys
pub mod Types
pub mod Store
pub mod Read
pub mod Steps
pub mod Create
pub mod Properties
pub mod Write
pub mod Db
mod Examples
mod CreateExample
