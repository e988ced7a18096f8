-- ===== src/Pager/Meta/RoundTrip.antt =====
-- A meta page reads back as written, and its checksum validates.
use gemgraph.Base.{
  ℕ, ◌+◌, ◌≤◌, [], ◌∷◌, ◌^◌, ◌<◌, ◌≡◌, refl, ap, ◌∙◌, inl, List, some, true, length, ==_refl, arith,
}
use gemgraph.Bytes.Buffer.{
  zeros, read_at, write_at, length-zeros, length-write_at, length-read_at, read_at-write_at_inside,
}
use gemgraph.Bytes.Fields.{
  read_le, write_le, set_byte, length-write_le, length-set_byte, read_at-write_le-Apart,
  read_le-write_le_self,
}
use gemgraph.Bytes.Le.{to_le_bytes, from_le_bytes}
use gemgraph.Bytes.Writes.{
  apply_writes, length-apply_writes, read_at-first_write, read_le-first_write,
}
use gemgraph.Bytes.Order.{eq_bytes_iff}
use gemgraph.Pager.Page.{type_byte, meta_page}
use gemgraph.Pager.Meta.{
  Meta, meta_magic, serialize_fields, to_page, from_page, compute_checksum, update_checksum,
  validate_checksum,
}

-- The ranges that the field types give, and the magic that `from_page` asks for.
pub record IsWellTyped (m : Meta) : Type 0 where
  pub magic : m.magic ≡ meta_magic
  pub version : m.version < 2 ^ 32
  pub root : m.root_page_id < 2 ^ 32
  pub next_page : m.next_page_id < 2 ^ 32
  pub txn : m.txn_id < 2 ^ 64
  pub wal : m.wal_offset < 2 ^ 64
  pub sum : m.checksum < 2 ^ 32

-- The writes of `serialize_fields`, from the field of that number on.
module _ (m : Meta) where
  abbrev from_wal : List (ℕ × List ℕ)
  from_wal = (24, to_le_bytes 8 m.wal_offset) ∷ []

  abbrev from_txn : List (ℕ × List ℕ)
  from_txn = (16, to_le_bytes 8 m.txn_id) ∷ from_wal

  abbrev from_next : List (ℕ × List ℕ)
  from_next = (12, to_le_bytes 4 m.next_page_id) ∷ from_txn

  abbrev from_root : List (ℕ × List ℕ)
  from_root = (8, to_le_bytes 4 m.root_page_id) ∷ from_next

  abbrev from_version : List (ℕ × List ℕ)
  from_version = (4, to_le_bytes 4 m.version) ∷ from_root

  serialize-eq-writes :
      (buf : List ℕ) → serialize_fields m buf ≡ apply_writes ((0, m.magic) ∷ from_version) buf
  unfolding serialize_fields write_le
  serialize-eq-writes buf = refl

module _ (m : Meta) (wt : IsWellTyped m) (buf : List ℕ) (size : length buf ≡ 32) where
  -- Each field reads back from the serialized fields.
  serialize_reads :
      let s = serialize_fields m buf in
      (read_at 0 4 s ≡ meta_magic)
      × (read_le 4 4 s ≡ m.version)
      × (read_le 8 4 s ≡ m.root_page_id)
      × (read_le 12 4 s ≡ m.next_page_id)
      × (read_le 16 8 s ≡ m.txn_id)
      × (read_le 24 8 s ≡ m.wal_offset)
  serialize_reads =
      let b0 = write_at 0 m.magic buf in
      let b1 = write_at 4 (to_le_bytes 4 m.version) b0 in
      let b2 = write_at 8 (to_le_bytes 4 m.root_page_id) b1 in
      let b3 = write_at 12 (to_le_bytes 4 m.next_page_id) b2 in
      let b4 = write_at 16 (to_le_bytes 8 m.txn_id) b3 in
      let n0 : length b0 ≡ 32 = length-write_at 0 m.magic buf ∙ size in
      let n1 : length b1 ≡ 32 = length-write_at 4 (to_le_bytes 4 m.version) b0 ∙ n0 in
      let n2 : length b2 ≡ 32 = length-write_at 8 (to_le_bytes 4 m.root_page_id) b1 ∙ n1 in
      let n3 : length b3 ≡ 32 = length-write_at 12 (to_le_bytes 4 m.next_page_id) b2 ∙ n2 in
      let n4 : length b4 ≡ 32 = length-write_at 16 (to_le_bytes 8 m.txn_id) b3 ∙ n3 in
      rw (serialize-eq-writes m buf) (
        rw wt.magic
            (read_at-first_write 0 meta_magic (from_version m) buf (omega arith) (omega arith)),
        read_le-first_write 4 4 m.version (from_root m) b0 (omega arith) wt.version (omega arith),
        read_le-first_write 8 4 m.root_page_id (from_next m) b1 (omega arith) wt.root (omega arith),
        read_le-first_write 12 4 m.next_page_id (from_txn m) b2 (omega arith) wt.next_page
            (omega arith),
        read_le-first_write 16 8 m.txn_id (from_wal m) b3 (omega arith) wt.txn (omega arith),
        read_le-first_write 24 8 m.wal_offset [] b4 (omega arith) wt.wal (omega arith),
      )

length-serialize_fields : (m : Meta) (buf : List ℕ) → length (serialize_fields m buf) ≡ length buf
length-serialize_fields m buf =
    ap length (serialize-eq-writes m buf) ∙ length-apply_writes ((0, m.magic) ∷ from_version m) buf

module _ (m : Meta) (slot : ℕ) where
  abbrev header : List ℕ
  header = write_le 1 4 slot (set_byte 0 (type_byte meta_page) (zeros 4096))

  abbrev fields : List ℕ
  fields = serialize_fields m (read_at 5 32 header)

  header_size : length header ≡ 4096
  header_size =
      length-write_le 1 4 slot (set_byte 0 (type_byte meta_page) (zeros 4096))
      ∙ length-set_byte 0 (type_byte meta_page) (zeros 4096)
      ∙ length-zeros 4096

  slice_size : length (read_at 5 32 header) ≡ 32
  slice_size = length-read_at 5 32 header (omega (arith, header_size))

  -- A slice of the page inside its fields is a slice of the fields.
  to_page-fields : (i n : ℕ) → i + n ≤ 32 → read_at (5 + i) n (to_page m slot) ≡ read_at i n fields
  unfolding to_page
  to_page-fields i n h =
      let size : length fields ≡ 32 =
        length-serialize_fields m (read_at 5 32 header) ∙ slice_size in
      read_at-write_le-Apart (5 + i) n 37 4 m.checksum (write_at 5 fields header)
        (inl (omega arith))
      ∙ read_at-write_at_inside 5 i n fields header (omega (arith, size))
          (omega (arith, size, header_size))

  to_page-field : (i w : ℕ) → i + w ≤ 32 → read_le (5 + i) w (to_page m slot) ≡ read_le i w fields
  unfolding read_le
  to_page-field i w h = ap from_le_bytes (to_page-fields i w h)

  to_page-checksum : m.checksum < 2 ^ 32 → read_le 37 4 (to_page m slot) ≡ m.checksum
  unfolding to_page
  to_page-checksum h =
      read_le-write_le_self 37 4 m.checksum (write_at 5 fields header)
        (omega (arith, length-write_at 5 fields header, header_size)) h

-- A meta page reads back as the descriptor that was written, from either slot.
pub from_page-to_page : (m : Meta) (slot : ℕ) → IsWellTyped m → from_page (to_page m slot) ≡ some m
unfolding from_page
from_page-to_page m slot wt =
    let (magic, version, root, next_page, txn, wal) =
      serialize_reads m wt (read_at 5 32 (header m slot)) (slice_size m slot) in
    ground (
      arith,
      (eq_bytes_iff meta_magic meta_magic).1 refl,
      wt.magic,
      to_page-fields m slot 0 4 (omega arith) ∙ magic,
      to_page-field m slot 4 4 (omega arith) ∙ version,
      to_page-field m slot 8 4 (omega arith) ∙ root,
      to_page-field m slot 12 4 (omega arith) ∙ next_page,
      to_page-field m slot 16 8 (omega arith) ∙ txn,
      to_page-field m slot 24 8 (omega arith) ∙ wal,
      to_page-checksum m slot wt.sum,
    )

module _ (crc32c : List ℕ → ℕ) (crc32c-lt : (bytes : List ℕ) → crc32c bytes < 2 ^ 32) where
  pub update_checksum-validates :
      (m : Meta) → validate_checksum crc32c (update_checksum crc32c m) ≡ true
  unfolding validate_checksum update_checksum serialize_fields
  update_checksum-validates m = ==_refl (compute_checksum crc32c m)

  pub update_checksum-IsWellTyped :
      (m : Meta) → IsWellTyped (record m { checksum = 0 }) → IsWellTyped (update_checksum crc32c m)
  unfolding update_checksum
  update_checksum-IsWellTyped m wt = record {
    magic = wt.magic;
    version = wt.version;
    root = wt.root;
    next_page = wt.next_page;
    txn = wt.txn;
    wal = wt.wal;
    sum = crc32c-lt (serialize_fields m (zeros 32));
  }
