-- ===== src/BTree/Internal/Page.antt =====
-- crates/gemgraph-btree/src/node.rs: the page of an internal node, with the right child behind the
-- end of the data.
pub mod Entries
pub mod RoundTrip
use gemgraph.Base.{
  ℕ, zero, suc, ◌+◌, ◌*◌, ◌-◌, List, [], ◌∷◌, length, if◌then◌else◌, ltb, Result, ok, err,
}
use gemgraph.Bytes.Buffer.{zeros, read_at, write_at}
use gemgraph.Bytes.Fields.{read_le, write_le}
use gemgraph.Pager.Page.{page_size, PageType, btree_internal, write_page_header, read_page_header}
use gemgraph.BTree.Leaf.{num_offset, data_end_offset}
use gemgraph.BTree.Leaf.Page.{BTreeError, corrupt_node, read_u16, write_u16}
use gemgraph.BTree.Internal.{
  InternalEntry, InternalNode, internal_right_child_offset, internal_slots_offset,
  internal_slot_size,
}

unfoldable pub read_u32 : List ℕ → ℕ → ℕ
read_u32 buf off = read_le off 4 buf

unfoldable pub write_u32 : ℕ → ℕ → List ℕ → List ℕ
write_u32 off v buf = write_le off 4 v buf

-- One round of the loop of `to_page`, for entry `i` at the cursor that it has moved to.
unfoldable pub write_entry : ℕ → ℕ → InternalEntry → List ℕ → List ℕ
write_entry i data_cursor e buf =
    let buf1 = write_at data_cursor e.key buf in
    let slot_off = internal_slots_offset + i * internal_slot_size in
    let buf2 = write_u16 slot_off (length e.key) buf1 in
    let buf3 = write_u16 (slot_off + 2) data_cursor buf2 in write_u32 (slot_off + 4) e.child buf3

-- The loop from entry `i` on, with the buffer and the cursor that it ends with. The cursor underflows
-- in the source where the keys do not fit the page.
unfoldable pub write_entries : ℕ → ℕ → List InternalEntry → List ℕ → List ℕ × ℕ
unfolding write_entry
write_entries i data_cursor [] buf = (buf, data_cursor)
write_entries i data_cursor (e ∷ es) buf =
    let cursor = data_cursor - length e.key in
    write_entries (i + 1) cursor es (write_entry i cursor e buf)

unfoldable pub to_page : InternalNode → List ℕ
unfolding write_entries
to_page node =
    let buf1 = write_page_header btree_internal node.page_id (zeros page_size) in
    let buf2 = write_u16 num_offset (length node.entries) buf1 in
    let buf3 = write_u32 internal_right_child_offset node.right_child buf2 in
    let (buf4, data_cursor) = write_entries 0 page_size node.entries buf3 in
    write_u16 data_end_offset data_cursor buf4

abbrev prepend :
    InternalEntry → Result (List InternalEntry) BTreeError → Result (List InternalEntry) BTreeError
prepend e (ok es) = ok (e ∷ es)
prepend e (err error) = err error

-- The loop over `i..num`, for a number of entries to come.
unfoldable pub read_entries : ℕ → ℕ → List ℕ → Result (List InternalEntry) BTreeError
read_entries zero i buf = ok []
read_entries (suc num) i buf =
    let slot_off = internal_slots_offset + i * internal_slot_size in
    let key_len = read_u16 buf slot_off in
    let data_off = read_u16 buf (slot_off + 2) in
    let child = read_u32 buf (slot_off + 4) in
    let e : InternalEntry = record { key = read_at data_off key_len buf; child = child } in
    let rest = prepend e (read_entries num (i + 1) buf) in
    if ltb page_size (data_off + key_len) then err corrupt_node else rest

abbrev branch_of : ℕ → ℕ → Result (List InternalEntry) BTreeError → Result InternalNode BTreeError
branch_of page_id right_child (ok entries) =
    ok (record { page_id = page_id; entries = entries; right_child = right_child })
branch_of page_id right_child (err error) = err error

abbrev checked : PageType → Result InternalNode BTreeError → Result InternalNode BTreeError
checked btree_internal node = node
checked _ node = err corrupt_node

unfoldable pub from_page : List ℕ → Result InternalNode BTreeError
unfolding read_entries
from_page buf =
    let (page_type, page_id) = read_page_header buf in
    let right_child = read_u32 buf internal_right_child_offset in
    checked page_type (branch_of page_id right_child (read_entries (read_u16 buf num_offset) 0 buf))
