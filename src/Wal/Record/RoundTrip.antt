-- ===== src/Wal/Record/RoundTrip.antt =====
-- Decoding what `payload` encoded.
use gemgraph.Base.{
  ℕ, ◌≤◌, ◌<◌, ◌^◌, ◌≡◌, ◌↔◌, List, ◌++◌, length, take, drop, length-append, take-append_length,
  drop-append_length, take-length_le, take-append-drop, length-take, All, All-take, All-drop,
  length-drop, ok, arith,
}
use Prim.Native.Nat.{min}
use gemgraph.Bytes.Le.{
  IsByte, from_le_bytes, to_le_bytes-from_le_bytes, from_le_bytes-lt, to_le_bytes,
  length-to_le_bytes, from_le_bytes-to_le_bytes,
}
use gemgraph.Wal.Record.{
  WalRecord, page_write, commit, checkpoint, record_type, payload, from_raw, IsWellTyped,
}

pub take-to_le_bytes :
    (w v : ℕ) (bytes : List ℕ) → take w (to_le_bytes w v ++ bytes) ≡ to_le_bytes w v
take-to_le_bytes w v bytes = rw length-to_le_bytes at (take-append_length (to_le_bytes w v) bytes)

pub drop-to_le_bytes : (w v : ℕ) (bytes : List ℕ) → drop w (to_le_bytes w v ++ bytes) ≡ bytes
drop-to_le_bytes w v bytes = rw length-to_le_bytes at (drop-append_length (to_le_bytes w v) bytes)

-- A payload is at most a page and its id.
pub length-payload-le : (r : WalRecord) → IsWellTyped r → length (payload r) ≤ 4100
unfolding payload
length-payload-le (page_write page_id bytes) h =
    omega
      (arith, length-append (to_le_bytes 4 page_id) bytes, length-to_le_bytes 4 page_id, h.1.size)
length-payload-le (commit txn_id) h = omega (arith, length-to_le_bytes 8 txn_id)
length-payload-le (checkpoint txn_id) h = omega (arith, length-to_le_bytes 8 txn_id)

-- A record decodes from its type byte and its payload.
pub from_raw-payload : (r : WalRecord) → IsWellTyped r → from_raw (record_type r) (payload r) ≡ ok r
unfolding from_raw record_type payload
from_raw-payload (page_write page_id bytes) h = ground (
  arith,
  length-append (to_le_bytes 4 page_id) bytes,
  length-to_le_bytes 4 page_id,
  take-to_le_bytes 4 page_id bytes,
  drop-to_le_bytes 4 page_id bytes,
  from_le_bytes-to_le_bytes 4 page_id h.0,
  h.1.size,
)
from_raw-payload (commit txn_id) h = ground (
  arith,
  length-to_le_bytes 8 txn_id,
  take-length_le 8 (to_le_bytes 8 txn_id),
  from_le_bytes-to_le_bytes 8 txn_id h,
)
from_raw-payload (checkpoint txn_id) h = ground (
  arith,
  length-to_le_bytes 8 txn_id,
  take-length_le 8 (to_le_bytes 8 txn_id),
  from_le_bytes-to_le_bytes 8 txn_id h,
)

min_of_le : {m n : ℕ} → m ≤ n → min m n ≡ m
min_of_le h = omega arith

le_take :
    (w : ℕ) (bytes : List ℕ)
    → All IsByte bytes
    → w ≤ length bytes
    → to_le_bytes w (from_le_bytes (take w bytes)) ≡ take w bytes
le_take w bytes h fits =
    rw (length-take, min_of_le fits) at
      (to_le_bytes-from_le_bytes (take w bytes) (All-take IsByte w bytes h))

-- A payload of bytes that decodes is the payload of the decoded record, under its type.
pub payload-from_raw :
    (rt : ℕ) (bytes : List ℕ) (r : WalRecord)
    → All IsByte bytes
    → from_raw rt bytes ≡ ok r
    → (record_type r ≡ rt) × (payload r ≡ bytes)
unfolding from_raw record_type payload
payload-from_raw rt bytes (page_write page_id content) h e =
    ground (arith, le_take 4 bytes h, take-append-drop 4 bytes)
payload-from_raw rt bytes (commit txn_id) h e =
    ground (arith, le_take 8 bytes h, take-length_le 8 bytes)
payload-from_raw rt bytes (checkpoint txn_id) h e =
    ground (arith, le_take 8 bytes h, take-length_le 8 bytes)

from_le-take-lt :
    (w : ℕ) (bytes : List ℕ)
    → All IsByte bytes
    → w ≤ length bytes
    → from_le_bytes (take w bytes) < 256 ^ w
from_le-take-lt w bytes h fits =
    rw (length-take, min_of_le fits) at
      (from_le_bytes-lt (take w bytes) (All-take IsByte w bytes h))

-- A payload of bytes decodes to a record whose fields fit their types.
from_raw-IsWellTyped :
    (rt : ℕ) (bytes : List ℕ) (r : WalRecord)
    → All IsByte bytes
    → from_raw rt bytes ≡ ok r
    → IsWellTyped r
unfolding from_raw
from_raw-IsWellTyped rt bytes (page_write page_id content) h e =
    let parts : (length bytes ≡ 4100)
        × (page_id ≡ from_le_bytes (take 4 bytes))
        × (content ≡ drop 4 bytes) =
      ground arith in
    (
      omega (arith, from_le-take-lt 4 bytes h, parts.0, parts.1),
      rw parts.2 (record {
        size = omega (arith, length-drop 4 bytes, parts.0);
        range = All-drop IsByte 4 bytes h;
      }),
    )
from_raw-IsWellTyped rt bytes (commit txn_id) h e = ground (arith, from_le-take-lt 8 bytes h)
from_raw-IsWellTyped rt bytes (checkpoint txn_id) h e = ground (arith, from_le-take-lt 8 bytes h)

-- A type byte and a payload of bytes decode to `r` exactly when they are those of `r` and the fields
-- of `r` fit their types.
pub from_raw-ok_iff :
    (rt : ℕ) (bytes : List ℕ) (r : WalRecord)
    → All IsByte bytes
    → (from_raw rt bytes ≡ ok r) ↔ (IsWellTyped r × (record_type r ≡ rt) × (payload r ≡ bytes))
from_raw-ok_iff rt bytes r h = (
  λ e.
      let (kind, content) = payload-from_raw rt bytes r h e in
      (from_raw-IsWellTyped rt bytes r h e, kind, content),
  λ c. rw (← c.1, ← c.2) (from_raw-payload r c.0),
)
