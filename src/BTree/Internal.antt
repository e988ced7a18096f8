-- ===== src/BTree/Internal.antt =====
-- crates/gemgraph-btree/src/node.rs: `InternalNode`, the separators of an internal node and the
-- children between them.
pub mod Sorted
pub mod Insert
pub mod Split
pub mod Page
use gemgraph.Base.{
  ℕ, zero, suc, ◌+◌, ◌*◌, ◌-◌, ◌/◌, Bool, true, false, List, [], ◌∷◌, length, take, drop,
  if◌then◌else◌, leb, ltb, Result, ok, err,
}
use gemgraph.Bytes.Order.{compare_bytes, lt_bytes}
use gemgraph.Pager.Page.{page_size}
use gemgraph.BTree.Leaf.{data_end_offset, insert_at, shift}
use Prim.Native.Nat.Ordering.{lt, eq, gt}

abbrev pub internal_right_child_offset : ℕ
internal_right_child_offset = data_end_offset + 2

abbrev pub internal_slots_offset : ℕ
internal_slots_offset = internal_right_child_offset + 4

abbrev pub internal_slot_size : ℕ
internal_slot_size = 8

-- `child` is the child to the left of the key.
pub record InternalEntry : Type 0 where
  pub key : List ℕ
  pub child : ℕ

pub record InternalNode : Type 0 where
  pub page_id : ℕ
  pub entries : List InternalEntry
  pub right_child : ℕ

-- `InternalNode::new`
unfoldable pub single : ℕ → ℕ → List ℕ → ℕ → InternalNode
single page_id left key right = record {
  page_id = page_id;
  entries = record { key = key; child = left } ∷ [];
  right_child = right;
}

-- The loop over the entries, from entry `i` on.
unfoldable pub find_child_loop : List ℕ → ℕ → List InternalEntry → ℕ → ℕ × ℕ
find_child_loop key right_child [] i = (right_child, i)
find_child_loop key right_child (e ∷ es) i =
    let rest = find_child_loop key right_child es (i + 1) in
    if lt_bytes key e.key then (e.child, i) else rest

-- The child to follow, and its index.
unfoldable pub find_child : List ℕ → InternalNode → ℕ × ℕ
find_child key node = find_child_loop key node.right_child node.entries 0

-- `binary_search_by`, as for a leaf.
unfoldable pub search_internal : List ℕ → List InternalEntry → Result ℕ ℕ
search_internal key [] = err 0
search_internal key (e ∷ es) =
    let rest = search_internal key es in
    elim (compare_bytes e.key key) [ lt ↦ shift rest | eq ↦ ok 0 | gt ↦ err 0 ]

-- `unwrap_or_else(|i| i)`
abbrev pub position : Result ℕ ℕ → ℕ
position (ok i) = i
position (err i) = i

-- `entries[i].child = child`
abbrev pub set_child : ℕ → ℕ → List InternalEntry → List InternalEntry
set_child i child [] = []
set_child zero child (x ∷ es) = record x { child = child } ∷ es
set_child (suc i) child (x ∷ es) = x ∷ set_child i child es

-- The new entries and the new right child.
abbrev pub inserted : List ℕ → ℕ → ℕ → List InternalEntry → ℕ → ℕ → List InternalEntry × ℕ
inserted key left_child right_child entries old_right pos =
    let entries' = insert_at pos (record { key = key; child = left_child }) entries in
    if ltb (pos + 1) (length entries')
    then (set_child (pos + 1) right_child entries', old_right)
    else (entries', right_child)

unfoldable pub insert_key : List ℕ → ℕ → ℕ → InternalNode → InternalNode
insert_key key left_child right_child node =
    let pos = position (search_internal key node.entries) in
    let (entries, right) = inserted key left_child right_child node.entries node.right_child pos in
    record node { entries = entries; right_child = right }

-- `entries[i]`, which panics in the source out of range.
abbrev pub key_at : ℕ → List InternalEntry → List ℕ
key_at i [] = []
key_at zero (e ∷ es) = e.key
key_at (suc i) (e ∷ es) = key_at i es

abbrev pub child_at : ℕ → List InternalEntry → ℕ
child_at i [] = 0
child_at zero (e ∷ es) = e.child
child_at (suc i) (e ∷ es) = child_at i es

-- The left node, the right node and the separator. `split_off(mid + 1)` and `pop` leave the first
-- `mid` entries in the left node.
unfoldable pub split : ℕ → InternalNode → InternalNode × InternalNode × List ℕ
split new_page_id node =
    let mid = length node.entries / 2 in
    (
      record node { entries = take mid node.entries; right_child = child_at mid node.entries },
      record {
        page_id = new_page_id;
        entries = drop (mid + 1) node.entries;
        right_child = node.right_child;
      },
      key_at mid node.entries,
    )

unfoldable pub used : List InternalEntry → ℕ
used [] = 0
used (e ∷ es) = length e.key + used es

-- `PAGE_SIZE - used`, which in the source underflows where the keys do not fit a page.
unfoldable pub data_area_end : InternalNode → ℕ
unfolding used
data_area_end node = page_size - used node.entries

unfoldable pub free_space : InternalNode → ℕ
unfolding data_area_end
free_space node =
    let slot_end = internal_slots_offset + length node.entries * internal_slot_size in
    let data_start = data_area_end node in
    if ltb slot_end data_start then data_start - slot_end else 0

abbrev pub space_needed : ℕ → ℕ
space_needed key_len = internal_slot_size + key_len

unfoldable pub can_fit : ℕ → InternalNode → Bool
unfolding free_space
can_fit key_len node = leb (space_needed key_len) (free_space node)
