-- ===== src/Pager.antt =====
-- crates/gemgraph-pager: pages, the two meta pages, the freelist, and the cached page file.
pub mod Page
pub mod Meta
pub mod FreeList
pub mod Disk
pub mod Store
mod Examples
