-- ===== src/BTree/Internal/Page/RoundTrip.antt =====
-- An internal node whose keys fit its page reads back as it was written.
use gemgraph.Base.{
  ℕ, ◌+◌, ◌^◌, ◌≤◌, ◌<◌, ◌≡◌, refl, ap, ◌∙◌, inl, inr, ◌⊎◌, List, length, ok, All, arith,
}
use gemgraph.Bytes.Le.{from_le_bytes}
use gemgraph.Bytes.Buffer.{zeros, read_at, length-zeros}
use gemgraph.Bytes.Fields.{
  read_le, byte_at, set_byte, length-write_le, length-set_byte, read_le-write_le_self,
  read_at-write_le-Apart,
}
use gemgraph.Pager.Page.{
  type_byte, btree_internal, write_page_header, read_page_header, read-write_page_header,
}
use gemgraph.BTree.Leaf.Page.{read_u16, write_u16}
use gemgraph.BTree.Internal.{InternalNode, used}
use gemgraph.BTree.Internal.Page.{
  read_u32, write_u32, write_entries, to_page, read_entries, from_page,
}
use gemgraph.BTree.Internal.Page.Entries.{
  slot, HasPageId, write_entries-outside, read-write_entries,
}

module _ (node : InternalNode) where
  -- The slots and the keys fit a page.
  abbrev pub Fits : Type 0
  Fits = slot (length node.entries) + used node.entries ≤ 4096

  abbrev head : List ℕ
  head = write_page_header btree_internal node.page_id (zeros 4096)

  abbrev numbered : List ℕ
  numbered = write_u16 5 (length node.entries) head

  abbrev with_child : List ℕ
  with_child = write_u32 9 node.right_child numbered

  head_size : length head ≡ 4096
  unfolding write_page_header
  head_size =
      length-write_le 1 4 node.page_id (set_byte 0 (type_byte btree_internal) (zeros 4096))
      ∙ length-set_byte 0 (type_byte btree_internal) (zeros 4096)
      ∙ length-zeros 4096

  numbered_size : length numbered ≡ 4096
  unfolding write_u16
  numbered_size = length-write_le 5 2 (length node.entries) head ∙ head_size

  child_size : length with_child ≡ 4096
  unfolding write_u32
  child_size = length-write_le 9 4 node.right_child numbered ∙ numbered_size

  -- The entries and the end of the data leave what stands in front of the slots alone.
  to_page-front :
      (o n : ℕ)
      → Fits
      → o + n ≤ 7 ⊎ 9 ≤ o
      → o + n ≤ 13
      → read_at o n (to_page node) ≡ read_at o n with_child
  unfolding to_page write_u16 write_u32
  to_page-front o n fits aside front =
      let (buf, cursor) = write_entries 0 4096 node.entries with_child in
      read_at-write_le-Apart o n 7 2 cursor buf aside
      ∙ write_entries-outside 0 4096 node.entries o n with_child (omega arith) (inl (omega arith))
          (inl (omega arith))

  pub to_page-header :
      Fits
      → node.page_id < 2 ^ 32
      → read_page_header (to_page node) ≡ (btree_internal, node.page_id)
  unfolding read_page_header byte_at read_le write_u16 write_u32
  to_page-header fits id =
      rw
        (
          to_page-front 0 1 fits (inl (omega arith)) (omega arith),
          to_page-front 1 4 fits (inl (omega arith)) (omega arith),
          read_at-write_le-Apart 0 1 9 4 node.right_child numbered (inl (omega arith)),
          read_at-write_le-Apart 1 4 9 4 node.right_child numbered (inl (omega arith)),
          read_at-write_le-Apart 0 1 5 2 (length node.entries) head (inl (omega arith)),
          read_at-write_le-Apart 1 4 5 2 (length node.entries) head (inl (omega arith)),
        )
        (read-write_page_header btree_internal node.page_id (zeros 4096)
          (omega (arith, length-zeros 4096)) id)

  to_page-num : Fits → read_u16 (to_page node) 5 ≡ length node.entries
  unfolding read_u16 read_le write_u16 write_u32
  to_page-num fits =
      ap from_le_bytes (
        to_page-front 5 2 fits (inl (omega arith)) (omega arith)
        ∙ read_at-write_le-Apart 5 2 9 4 node.right_child numbered (inl (omega arith)))
      ∙ read_le-write_le_self 5 2 (length node.entries) head (omega (arith, head_size))
          (omega arith)

  to_page-right_child :
      Fits → node.right_child < 2 ^ 32 → read_u32 (to_page node) 9 ≡ node.right_child
  unfolding read_u32 read_le write_u32
  to_page-right_child fits small =
      ap from_le_bytes (to_page-front 9 4 fits (inr (omega arith)) (omega arith))
      ∙ read_le-write_le_self 9 4 node.right_child numbered (omega (arith, numbered_size)) small

  to_page-entries :
      Fits
      → All HasPageId node.entries
      → read_entries (length node.entries) 0 (to_page node) ≡ ok node.entries
  unfolding to_page write_u16
  to_page-entries fits small =
      let (buf, cursor) = write_entries 0 4096 node.entries with_child in
      read-write_entries 0 4096 node.entries with_child (to_page node)
        (λ o n h. read_at-write_le-Apart o n 7 2 cursor buf (inr (omega arith))) child_size
        (omega arith) (omega arith) small

-- An internal node whose slots and keys fit a page, and whose page ids are of 32 bits, reads back
-- from it.
pub from_page-to_page_branch :
    (node : InternalNode)
    → Fits node
    → node.page_id < 2 ^ 32
    → node.right_child < 2 ^ 32
    → All HasPageId node.entries
    → (from_page (to_page node) ≡ ok node)
      × (read_page_header (to_page node) ≡ (btree_internal, node.page_id))
unfolding from_page
from_page-to_page_branch node fits id right small = (
  rw
      (
        to_page-header node fits id,
        to_page-num node fits,
        to_page-right_child node fits right,
        to_page-entries node fits small,
      )
      refl,
  to_page-header node fits id,
)
