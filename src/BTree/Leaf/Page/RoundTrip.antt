-- ===== src/BTree/Leaf/Page/RoundTrip.antt =====
-- A leaf whose entries fit its page reads back as it was written.
use gemgraph.Base.{
  ℕ, ◌+◌, ◌*◌, ◌^◌, ◌≤◌, ◌<◌, ◌≡◌, refl, ap, ◌∙◌, inl, inr, List, length, ok, arith,
}
use gemgraph.Bytes.Le.{from_le_bytes}
use gemgraph.Bytes.Buffer.{zeros, read_at, length-zeros}
use gemgraph.Bytes.Fields.{
  read_le, byte_at, set_byte, length-write_le, length-set_byte, read_le-write_le_self,
  read_at-write_le-Apart,
}
use gemgraph.Pager.Page.{
  type_byte, btree_leaf, write_page_header, read_page_header, read-write_page_header,
}
use gemgraph.BTree.Leaf.{LeafNode, used}
use gemgraph.BTree.Leaf.Page.{read_u16, write_u16, write_entries, to_page, read_entries, from_page}
use gemgraph.BTree.Leaf.Page.Entries.{slot, write_entries-outside, read-write_entries}

-- What the whole page is read as in front of the slots.
module _ (node : LeafNode) where
  abbrev head : List ℕ
  head = write_page_header btree_leaf node.page_id (zeros 4096)

  abbrev numbered : List ℕ
  numbered = write_u16 5 (length node.entries) head

  head_size : length head ≡ 4096
  unfolding write_page_header
  head_size =
      length-write_le 1 4 node.page_id (set_byte 0 (type_byte btree_leaf) (zeros 4096))
      ∙ length-set_byte 0 (type_byte btree_leaf) (zeros 4096)
      ∙ length-zeros 4096

  numbered_size : length numbered ≡ 4096
  unfolding write_u16
  numbered_size = length-write_le 5 2 (length node.entries) head ∙ head_size

  -- The entries and the end of the data leave the header and the number alone.
  to_page-front :
      (o n : ℕ)
      → slot (length node.entries) + used node.entries ≤ 4096
      → o + n ≤ 7
      → read_at o n (to_page node) ≡ read_at o n numbered
  unfolding to_page write_u16
  to_page-front o n fits front =
      let (buf, cursor) = write_entries 0 4096 node.entries numbered in
      read_at-write_le-Apart o n 7 2 cursor buf (inl (omega arith))
      ∙ write_entries-outside 0 4096 node.entries o n numbered (omega arith) (inl (omega arith))
          (inl (omega arith))

  pub to_page-header :
      slot (length node.entries) + used node.entries ≤ 4096
      → node.page_id < 2 ^ 32
      → read_page_header (to_page node) ≡ (btree_leaf, node.page_id)
  unfolding read_page_header byte_at read_le write_u16
  to_page-header fits id =
      rw
        (
          to_page-front 0 1 fits (omega arith),
          to_page-front 1 4 fits (omega arith),
          read_at-write_le-Apart 0 1 5 2 (length node.entries) head (inl (omega arith)),
          read_at-write_le-Apart 1 4 5 2 (length node.entries) head (inl (omega arith)),
        )
        (read-write_page_header btree_leaf node.page_id (zeros 4096)
          (omega (arith, length-zeros 4096)) id)

  to_page-num :
      slot (length node.entries) + used node.entries ≤ 4096
      → read_u16 (to_page node) 5 ≡ length node.entries
  unfolding read_u16 read_le write_u16
  to_page-num fits =
      ap from_le_bytes (to_page-front 5 2 fits (omega arith))
      ∙ read_le-write_le_self 5 2 (length node.entries) head (omega (arith, head_size))
          (omega arith)

  to_page-entries :
      slot (length node.entries) + used node.entries ≤ 4096
      → read_entries (length node.entries) 0 (to_page node) ≡ ok node.entries
  unfolding to_page write_u16
  to_page-entries fits =
      let (buf, cursor) = write_entries 0 4096 node.entries numbered in
      read-write_entries 0 4096 node.entries numbered (to_page node)
        (λ o n h. read_at-write_le-Apart o n 7 2 cursor buf (inr (omega arith))) numbered_size
        (omega arith) (omega arith)

-- A leaf whose slots and entries fit a page reads back from it.
pub from_page-to_page_leaf :
    (node : LeafNode)
    → 9 + length node.entries * 6 + used node.entries ≤ 4096
    → node.page_id < 2 ^ 32
    → from_page (to_page node) ≡ ok node
unfolding from_page
from_page-to_page_leaf node fits id =
    rw (to_page-header node fits id, to_page-num node fits, to_page-entries node fits) refl
