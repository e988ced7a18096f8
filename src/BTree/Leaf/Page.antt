-- ===== src/BTree/Leaf/Page.antt =====
-- crates/gemgraph-btree/src/node.rs: the page of a leaf. Slots grow from the front and the bytes of
-- keys and values from the back.
pub mod Entries
pub mod RoundTrip
use gemgraph.Base.{
  ℕ, zero, suc, ◌+◌, ◌*◌, ◌-◌, ◌/◌, ◌%◌, ◌^◌, List, [], ◌∷◌, length, if◌then◌else◌, ltb, Result, ok,
  err,
}
use gemgraph.Bytes.Buffer.{zeros, read_at, write_at}
use gemgraph.Bytes.Fields.{read_le, write_le}
use gemgraph.Pager.Page.{
  page_size, PageType, btree_leaf, type_byte, write_page_header, read_page_header,
}
use gemgraph.Pager.Disk.{PagerError}
use gemgraph.BTree.Leaf.{
  LeafEntry, LeafNode, num_offset, data_end_offset, leaf_slots_offset, leaf_slot_size,
}

pub data BTreeError : Type 0 where
  pager : PagerError → BTreeError
  key_too_large value_too_large : ℕ → ℕ → BTreeError
  corrupt_node : BTreeError

unfoldable pub read_u16 : List ℕ → ℕ → ℕ
read_u16 buf off = read_le off 2 buf

unfoldable pub write_u16 : ℕ → ℕ → List ℕ → List ℕ
write_u16 off v buf = write_le off 2 v buf

-- One round of the loop of `to_page`, for entry `i` at the cursor that it has moved to.
unfoldable pub write_entry : ℕ → ℕ → LeafEntry → List ℕ → List ℕ
write_entry i data_cursor e buf =
    let buf1 = write_at data_cursor e.key buf in
    let buf2 = write_at (data_cursor + length e.key) e.value buf1 in
    let slot_off = leaf_slots_offset + i * leaf_slot_size in
    let buf3 = write_u16 slot_off (length e.key) buf2 in
    let buf4 = write_u16 (slot_off + 2) (length e.value) buf3 in
    write_u16 (slot_off + 4) data_cursor buf4

-- The loop from entry `i` on, with the buffer and the cursor that it ends with. The cursor underflows
-- in the source where the entries do not fit the page.
unfoldable pub write_entries : ℕ → ℕ → List LeafEntry → List ℕ → List ℕ × ℕ
unfolding write_entry
write_entries i data_cursor [] buf = (buf, data_cursor)
write_entries i data_cursor (e ∷ es) buf =
    let cursor = data_cursor - (length e.key + length e.value) in
    write_entries (i + 1) cursor es (write_entry i cursor e buf)

unfoldable pub to_page : LeafNode → List ℕ
unfolding write_entries
to_page node =
    let buf1 = write_page_header btree_leaf node.page_id (zeros page_size) in
    let buf2 = write_u16 num_offset (length node.entries) buf1 in
    let (buf3, data_cursor) = write_entries 0 page_size node.entries buf2 in
    write_u16 data_end_offset data_cursor buf3

abbrev prepend : LeafEntry → Result (List LeafEntry) BTreeError → Result (List LeafEntry) BTreeError
prepend e (ok es) = ok (e ∷ es)
prepend e (err error) = err error

-- The loop over `i..num`, for a number of entries to come.
unfoldable pub read_entries : ℕ → ℕ → List ℕ → Result (List LeafEntry) BTreeError
read_entries zero i buf = ok []
read_entries (suc num) i buf =
    let slot_off = leaf_slots_offset + i * leaf_slot_size in
    let key_len = read_u16 buf slot_off in
    let val_len = read_u16 buf (slot_off + 2) in
    let data_off = read_u16 buf (slot_off + 4) in
    let e : LeafEntry = record {
      key = read_at data_off key_len buf;
      value = read_at (data_off + key_len) val_len buf;
    } in
    let rest = prepend e (read_entries num (i + 1) buf) in
    if ltb page_size (data_off + key_len + val_len) then err corrupt_node else rest

abbrev leaf_of : ℕ → Result (List LeafEntry) BTreeError → Result LeafNode BTreeError
leaf_of page_id (ok entries) = ok (record { page_id = page_id; entries = entries })
leaf_of page_id (err error) = err error

abbrev checked : PageType → Result LeafNode BTreeError → Result LeafNode BTreeError
checked btree_leaf node = node
checked _ node = err corrupt_node

unfoldable pub from_page : List ℕ → Result LeafNode BTreeError
unfolding read_entries
from_page buf =
    let (page_type, page_id) = read_page_header buf in
    checked page_type (leaf_of page_id (read_entries (read_u16 buf num_offset) 0 buf))
