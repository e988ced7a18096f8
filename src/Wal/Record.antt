-- ===== src/Wal/Record.antt =====
-- crates/gemgraph-wal/src/record.rs: the payload of a log record and its decoding.
pub mod RoundTrip
use gemgraph.Base.{
  ℕ, ◌+◌, ◌^◌, ◌<◌, ◌≡◌, List, ◌++◌, length, take, drop, All, if◌then◌else◌, ◌==◌, Result, ok, err,
}
use gemgraph.Bytes.Le.{IsByte, to_le_bytes, from_le_bytes}

abbrev pub page_write_type : ℕ
page_write_type = 1

abbrev pub commit_type : ℕ
commit_type = 2

abbrev pub checkpoint_type : ℕ
checkpoint_type = 3

abbrev pub page_size : ℕ
page_size = 4096

-- `WalError` of the crate: what the file system reports, a record that does not
-- decode, and an error that no code of the crate returns.
pub data WalError : Type 0 where
  io corrupt_record unexpected_eof : WalError

pub data WalRecord : Type 0 where
  page_write : ℕ → List ℕ → WalRecord
  commit : ℕ → WalRecord
  checkpoint : ℕ → WalRecord

unfoldable pub record_type : WalRecord → ℕ
record_type (page_write page_id bytes) = page_write_type
record_type (commit txn_id) = commit_type
record_type (checkpoint txn_id) = checkpoint_type

unfoldable pub payload : WalRecord → List ℕ
payload (page_write page_id bytes) = to_le_bytes 4 page_id ++ bytes
payload (commit txn_id) = to_le_bytes 8 txn_id
payload (checkpoint txn_id) = to_le_bytes 8 txn_id

unfoldable pub from_raw : ℕ → List ℕ → Result WalRecord WalError
from_raw rt bytes =
    if rt == page_write_type
    then (if length bytes == 4 + page_size
        then ok (page_write (from_le_bytes (take 4 bytes)) (drop 4 bytes))
        else err corrupt_record)
    else if rt == commit_type
    then (if length bytes == 8
        then ok (commit (from_le_bytes (take 8 bytes)))
        else err corrupt_record)
    else if rt == checkpoint_type
    then (if length bytes == 8
        then ok (checkpoint (from_le_bytes (take 8 bytes)))
        else err corrupt_record)
    else err corrupt_record

-- The ranges that the field types `u32`, `u64` and `[u8; 4096]` give.
pub record IsPage (bytes : List ℕ) : Type 0 where
  pub size : length bytes ≡ page_size
  pub range : All IsByte bytes

abbrev pub IsWellTyped : WalRecord → Type 0
IsWellTyped (page_write page_id bytes) = (page_id < 2 ^ 32) × IsPage bytes
IsWellTyped (commit txn_id) = txn_id < 2 ^ 64
IsWellTyped (checkpoint txn_id) = txn_id < 2 ^ 64
