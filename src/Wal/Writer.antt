-- ===== src/Wal/Writer.antt =====
-- crates/gemgraph-wal/src/writer.rs: framed records are appended to the log file.
-- `crc32c` is the checksum of the crate of that name.
pub mod Appends
use gemgraph.Base.{
  ℕ, ◌+◌, ◌%◌, ◌^◌, List, [], ◌∷◌, ◌++◌, Option, length, Result, ok, Method, ◌>>◌, pure,
}
use gemgraph.Bytes.Le.{to_le_bytes}
use gemgraph.Wal.Record.{WalError, page_write_type, commit_type, checkpoint_type}
use gemgraph.Wal.Device.{Device, write_all, sync_all}

pub record WalWriter : Type 0 where
  pub file : Device
  pub offset : ℕ

-- A call on the writer's file.
abbrev pub on_file :
    (Device → Result (Unit {0}) WalError × Device) → Method WalWriter WalError (Unit {0})
on_file call w = let (r, d) = call w.file in (r, record w { file = d })

-- `self.offset += n`
abbrev advance : ℕ → Method WalWriter WalError (Unit {0})
advance n w = (ok tt, record w { offset = (w.offset + n) % 2 ^ 64 })

-- `File::create` truncates.
unfoldable pub create : List (Option ℕ) → WalWriter
create faults = record { file = record { content = []; faults = faults }; offset = 0 }

-- `OpenOptions::open` and a seek to the end.
unfoldable pub open_log : List ℕ → List (Option ℕ) → WalWriter
open_log content faults = record {
  file = record { content = content; faults = faults };
  offset = length content;
}

module _ (crc32c : List ℕ → ℕ) where
  -- `length` is a `u32` and `offset` a `u64`: both wrap.
  unfoldable pub append_record : ℕ → List ℕ → Method WalWriter WalError ℕ
  append_record record_type payload w =
      let start = w.offset in
      let size = (1 + length payload % 2 ^ 32) % 2 ^ 32 in
      let body = record_type ∷ payload in
      let crc = crc32c body in
      (do
        on_file (write_all (to_le_bytes 4 size))
        on_file (write_all body)
        on_file (write_all (to_le_bytes 4 crc))
        advance (4 + length body + 4)
        pure start)
        w

  unfoldable pub append_page_write : ℕ → List ℕ → Method WalWriter WalError ℕ
  append_page_write page_id bytes = append_record page_write_type (to_le_bytes 4 page_id ++ bytes)

  unfoldable pub append_commit : ℕ → Method WalWriter WalError ℕ
  append_commit txn_id = append_record commit_type (to_le_bytes 8 txn_id)

  unfoldable pub append_checkpoint : ℕ → Method WalWriter WalError ℕ
  append_checkpoint txn_id = append_record checkpoint_type (to_le_bytes 8 txn_id)

unfoldable pub sync : Method WalWriter WalError (Unit {0})
sync = on_file sync_all
