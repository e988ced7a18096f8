-- ===== src/Wal/Reader.antt =====
-- crates/gemgraph-wal/src/reader.rs: the iterator over the records of the log file.
pub mod Steps
pub mod Progress
use gemgraph.Base.{
  ℕ, ◌+◌, ◌%◌, ◌^◌, List, [], ◌∷◌, Option, none, some, length, take, drop, Result, ok, err,
  if◌then◌else◌, ◌==◌, leb,
}
use gemgraph.Bytes.Le.{from_le_bytes}
use gemgraph.Wal.Record.{WalRecord, WalError, corrupt_record, from_raw}

-- `file` is what the file holds while it is read.
pub record WalIter : Type 0 where
  pub file : List ℕ
  pub offset : ℕ

unfoldable pub iter_from : List ℕ → ℕ → WalIter
iter_from file offset = record { file = file; offset = offset }

-- The wanted bytes and what follows them; `none` at the end of the file.
unfoldable pub read_exact_or_none : ℕ → List ℕ → Option (List ℕ × List ℕ)
read_exact_or_none n bytes =
    if leb n (length bytes) then some (take n bytes, drop n bytes) else none

-- `body[0]` and `body[1..]`; `next` has returned on a body of no bytes.
abbrev pub parse_body : List ℕ → Result WalRecord WalError
parse_body [] = err corrupt_record
parse_body (record_type ∷ payload) = from_raw record_type payload

-- On a record that parses the iterator moves on, on one that does not it stays.
abbrev pub yield_record :
    WalIter → ℕ → Result WalRecord WalError → Option (Result WalRecord WalError) × WalIter
yield_record it size (ok r) =
    (some (ok r), record it { offset = (it.offset + (4 + size + 4)) % 2 ^ 64 })
yield_record it size (err e) = (some (err e), it)

module _ (crc32c : List ℕ → ℕ) where
  abbrev check_crc :
      WalIter → ℕ → List ℕ → Option (List ℕ × List ℕ) → Option (Result WalRecord WalError) × WalIter
  check_crc it size body none = (none, it)
  check_crc it size body (some (crc_buf, rest)) =
      if from_le_bytes crc_buf == crc32c body
      then yield_record it size (parse_body body)
      else (none, it)

  abbrev read_body :
      WalIter → ℕ → Option (List ℕ × List ℕ) → Option (Result WalRecord WalError) × WalIter
  read_body it size none = (none, it)
  read_body it size (some (body, rest)) = check_crc it size body (read_exact_or_none 4 rest)

  abbrev read_size :
      WalIter → Option (List ℕ × List ℕ) → Option (Result WalRecord WalError) × WalIter
  read_size it none = (none, it)
  read_size it (some (len_buf, rest)) =
      let size = from_le_bytes len_buf in
      if size == 0 then (none, it) else read_body it size (read_exact_or_none size rest)

  -- A seek past the end of the file succeeds, and the read then finds nothing.
  unfoldable pub next : WalIter → Option (Result WalRecord WalError) × WalIter
  next it = read_size it (read_exact_or_none 4 (drop it.offset it.file))
