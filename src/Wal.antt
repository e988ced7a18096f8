-- ===== src/Wal.antt =====
-- crates/gemgraph-wal: the records of the write-ahead log, its writer, its reader and recovery.
pub mod Record
pub mod Frame
pub mod Device
pub mod Writer
pub mod Reader
pub mod Recovery
mod Examples
