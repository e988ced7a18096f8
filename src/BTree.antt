-- ===== src/BTree.antt =====
-- crates/gemgraph-btree: B+trees of byte strings over the pager's pages.
pub mod Leaf
pub mod Internal
pub mod Tree
mod Examples
