-- ===== src/Bytes.antt =====
-- Byte strings as the crates use them: integers in both byte orders, writes into fixed buffers.
pub mod Le
pub mod Be
pub mod Order
pub mod Buffer
pub mod Fields
pub mod Writes
