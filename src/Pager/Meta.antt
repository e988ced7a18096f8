-- ===== src/Pager/Meta.antt =====
-- crates/gemgraph-pager/src/meta.rs: the meta page descriptor and the choice between its two slots.
-- `crc32c` is the checksum of the crate of that name.
pub mod RoundTrip
use gemgraph.Base.{
  ℕ, ◌+◌, ◌<◌, ◌≡◌, Bool, List, [], ◌∷◌, Option, none, some, if◌then◌else◌, ◌==◌, ltb,
}
use gemgraph.Bytes.Buffer.{zeros, read_at, write_at}
use gemgraph.Bytes.Fields.{read_le, write_le, set_byte}
use gemgraph.Bytes.Order.{eq_bytes}
use gemgraph.Pager.Page.{page_size, page_header_size, type_byte, meta_page}

-- b"GMGR"
abbrev pub meta_magic : List ℕ
meta_magic = b'G' ∷ b'M' ∷ b'G' ∷ b'R' ∷ []

abbrev pub meta_fields_size : ℕ
meta_fields_size = 32

pub record Meta : Type 0 where
  pub magic : List ℕ
  pub version : ℕ
  pub root_page_id : ℕ
  pub next_page_id : ℕ
  pub txn_id : ℕ
  pub wal_offset : ℕ
  pub checksum : ℕ

unfoldable pub serialize_fields : Meta → List ℕ → List ℕ
serialize_fields m buf =
    let buf1 = write_at 0 m.magic buf in
    let buf2 = write_le 4 4 m.version buf1 in
    let buf3 = write_le 8 4 m.root_page_id buf2 in
    let buf4 = write_le 12 4 m.next_page_id buf3 in
    let buf5 = write_le 16 8 m.txn_id buf4 in write_le 24 8 m.wal_offset buf5

-- The header of the page and the fields, without the checksum.
unfoldable pub to_page : Meta → ℕ → List ℕ
to_page m slot =
    let buf1 = set_byte 0 (type_byte meta_page) (zeros page_size) in
    let buf2 = write_le 1 4 slot buf1 in
    let off = page_header_size in
    let fields = serialize_fields m (read_at off meta_fields_size buf2) in
    let buf3 = write_at off fields buf2 in write_le (off + meta_fields_size) 4 m.checksum buf3

unfoldable pub from_page : List ℕ → Option Meta
from_page buf =
    let off = page_header_size in
    let magic = read_at off 4 buf in
    if eq_bytes magic meta_magic
    then some (record {
      magic = magic;
      version = read_le (off + 4) 4 buf;
      root_page_id = read_le (off + 8) 4 buf;
      next_page_id = read_le (off + 12) 4 buf;
      txn_id = read_le (off + 16) 8 buf;
      wal_offset = read_le (off + 24) 8 buf;
      checksum = read_le (off + meta_fields_size) 4 buf;
    })
    else none

module _ (crc32c : List ℕ → ℕ) where
  unfoldable pub compute_checksum : Meta → ℕ
  compute_checksum m = crc32c (serialize_fields m (zeros meta_fields_size))

  unfoldable pub update_checksum : Meta → Meta
  unfolding compute_checksum
  update_checksum m = record m { checksum = compute_checksum m }

  unfoldable pub validate_checksum : Meta → Bool
  unfolding compute_checksum
  validate_checksum m = m.checksum == compute_checksum m

  unfoldable pub new_initial : Meta
  unfolding update_checksum
  new_initial = update_checksum (record {
    magic = meta_magic;
    version = 1;
    root_page_id = 0;
    next_page_id = 2;
    txn_id = 0;
    wal_offset = 0;
    checksum = 0;
  })

  -- `from_page(page).filter(|m| m.validate_checksum())`
  abbrev pub validated : Option Meta → Option Meta
  validated none = none
  validated (some m) = if validate_checksum m then some m else none

  abbrev pub newer : Option Meta → Option Meta → Option (Meta × ℕ)
  newer (some a) (some b) = if ltb a.txn_id b.txn_id then some (b, 1) else some (a, 0)
  newer (some a) none = some (a, 0)
  newer none (some b) = some (b, 1)
  newer none none = none

  unfoldable pub pick_active_meta : List ℕ → List ℕ → Option (Meta × ℕ)
  pick_active_meta page0 page1 = newer (validated (from_page page0)) (validated (from_page page1))
