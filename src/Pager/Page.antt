-- ===== src/Pager/Page.antt =====
-- crates/gemgraph-pager/src/page.rs: page constants, the page types and the five-byte header.
-- A page buffer is a list of `page_size` bytes, and a `PageId` is the number it wraps.
use gemgraph.Base.{
  ℕ, ◌-◌, ◌*◌, ◌^◌, ◌≤◌, ◌<◌, ◌≡◌, refl, List, Option, none, some, length, if◌then◌else◌, ◌==◌,
  arith,
}
use gemgraph.Bytes.Fields.{
  read_le, write_le, byte_at, set_byte, length-set_byte, read_le-write_le_self,
  byte_at-write_le-Apart, byte_at-set_byte_self,
}

abbrev pub page_size : ℕ
page_size = 4096

abbrev pub page_header_size : ℕ
page_header_size = 5

abbrev pub page_payload_size : ℕ
page_payload_size = page_size - page_header_size

-- `PageId::offset`, in bytes from the start of the data file.
unfoldable pub page_offset : ℕ → ℕ
page_offset id = id * page_size

pub data PageType : Type 0 where
  meta_page free_list_page btree_internal btree_leaf overflow_page : PageType

unfoldable pub type_byte : PageType → ℕ
type_byte meta_page = 0
type_byte free_list_page = 1
type_byte btree_internal = 2
type_byte btree_leaf = 3
type_byte overflow_page = 4

unfoldable pub from_u8 : ℕ → Option PageType
from_u8 v =
    if v == 0
    then some meta_page
    else if v == 1
    then some free_list_page
    else if v == 2
    then some btree_internal
    else if v == 3
    then some btree_leaf
    else if v == 4
    then some overflow_page
    else none

unfoldable pub write_page_header : PageType → ℕ → List ℕ → List ℕ
write_page_header page_type page_id buf =
    write_le 1 4 page_id (set_byte 0 (type_byte page_type) buf)

abbrev or_meta : Option PageType → PageType
or_meta none = meta_page
or_meta (some page_type) = page_type

-- A first byte that is no page type reads as a meta page.
unfoldable pub read_page_header : List ℕ → PageType × ℕ
read_page_header buf = (or_meta (from_u8 (byte_at 0 buf)), read_le 1 4 buf)

from_u8-type_byte : (page_type : PageType) → from_u8 (type_byte page_type) ≡ some page_type
unfolding from_u8 type_byte
from_u8-type_byte meta_page = refl
from_u8-type_byte free_list_page = refl
from_u8-type_byte btree_internal = refl
from_u8-type_byte btree_leaf = refl
from_u8-type_byte overflow_page = refl

-- The header reads back as written.
pub read-write_page_header :
    (page_type : PageType) (page_id : ℕ) (buf : List ℕ)
    → 5 ≤ length buf
    → page_id < 2 ^ 32
    → read_page_header (write_page_header page_type page_id buf) ≡ (page_type, page_id)
unfolding read_page_header write_page_header
read-write_page_header page_type page_id buf fits h = ground (
  arith,
  byte_at-write_le-Apart 0 1 4 page_id (set_byte 0 (type_byte page_type) buf),
  byte_at-set_byte_self 0 (type_byte page_type) buf,
  from_u8-type_byte page_type,
  length-set_byte 0 (type_byte page_type) buf,
  read_le-write_le_self 1 4 page_id (set_byte 0 (type_byte page_type) buf),
)
