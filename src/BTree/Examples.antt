-- ===== src/BTree/Examples.antt =====
-- A leaf of three entries.
use gemgraph.Base.{
  ap, ok, ◌==◌, ℕ, ◌<◌, ◌≡◌, refl, List, [], ◌∷◌, ◌++◌, none, some, if◌then◌else◌, length, arith,
}
use gemgraph.Bytes.Order.{eq_bytes, lt_bytes, compare_bytes}
use gemgraph.BTree.Leaf.{LeafEntry, LeafNode, upsert, delete, get, split}
use gemgraph.Bytes.Fields.{head_or_zero}
use gemgraph.BTree.Leaf.{used}
use gemgraph.BTree.Leaf.Page.{to_page, from_page}
use gemgraph.BTree.Leaf.Page.RoundTrip.{from_page-to_page_leaf}
use gemgraph.BTree.Internal.{
  InternalEntry, InternalNode, find_child, insert_key, split as split_branch,
}
use gemgraph.BTree.Internal.Insert.{find_child-insert_key}
use gemgraph.BTree.Internal.Sorted.{IsSorted as BranchIsSorted}
use gemgraph.BTree.Internal.Split.{find_child-split}
use gemgraph.BTree.Leaf.Sorted.{IsSorted}
use gemgraph.BTree.Leaf.Refinement.{find, get-eq-find, find-upsert, find-delete}
use gemgraph.BTree.Leaf.Split.{split_lem}

abbrev entry : ℕ → ℕ → LeafEntry
entry k v = record { key = k ∷ []; value = v ∷ [] }

abbrev leaf : LeafNode
leaf = record { page_id = 5; entries = entry 10 1 ∷ entry 20 2 ∷ entry 30 3 ∷ [] }

leaf-IsSorted : IsSorted leaf.entries
unfolding compare_bytes
leaf-IsSorted = ((refl, (refl, tt)), ((refl, tt), (tt, tt)))

abbrev key_20 : List ℕ
key_20 = 20 ∷ []

get-eq-find_example : get key_20 leaf ≡ find key_20 leaf.entries
get-eq-find_example = get-eq-find key_20 leaf leaf-IsSorted

find-upsert_example :
    IsSorted (upsert key_20 (9 ∷ []) leaf).entries
    × (find key_20 (upsert key_20 (9 ∷ []) leaf).entries
        ≡ (if eq_bytes key_20 key_20 then some (9 ∷ []) else find key_20 leaf.entries))
find-upsert_example = find-upsert key_20 (9 ∷ []) key_20 leaf leaf-IsSorted

find-delete_example :
    find (30 ∷ []) (delete key_20 leaf).1.entries
    ≡ (if eq_bytes key_20 (30 ∷ []) then none else find (30 ∷ []) leaf.entries)
find-delete_example = find-delete key_20 (30 ∷ []) leaf leaf-IsSorted

split_lem_example :
    let (left, right, separator) = split 6 leaf in
    (left.entries ++ right.entries ≡ leaf.entries)
    × (0 < length left.entries)
    × (0 < length right.entries)
    × IsSorted left.entries
    × IsSorted right.entries
    × (find key_20 leaf.entries ≡ (
        if lt_bytes key_20 separator then find key_20 left.entries else find key_20 right.entries))
split_lem_example = split_lem key_20 6 leaf (omega arith) leaf-IsSorted

from_page-to_page_leaf_example : from_page (to_page leaf) ≡ ok leaf
unfolding used
from_page-to_page_leaf_example = from_page-to_page_leaf leaf (omega arith) (omega arith)

abbrev child_entry : ℕ → ℕ → InternalEntry
child_entry k c = record { key = k ∷ []; child = c }

abbrev branch : InternalNode
branch = record {
  page_id = 9;
  entries = child_entry 10 2 ∷ child_entry 20 3 ∷ child_entry 30 4 ∷ [];
  right_child = 5;
}

branch-IsSorted : BranchIsSorted branch.entries
unfolding compare_bytes
branch-IsSorted = ((refl, (refl, tt)), ((refl, tt), (tt, tt)))

abbrev key_25 : List ℕ
key_25 = 25 ∷ []

-- The child 4 is split at 25.
find_child-insert_key_example :
    BranchIsSorted (insert_key key_25 4 7 branch).entries
    × ((find_child (22 ∷ []) (insert_key key_25 4 7 branch)).0 ≡ (
        if (find_child (22 ∷ []) branch).1 == (find_child key_25 branch).1
        then (if lt_bytes (22 ∷ []) key_25 then 4 else 7)
        else (find_child (22 ∷ []) branch).0))
find_child-insert_key_example = find_child-insert_key key_25 (22 ∷ []) 4 7 branch branch-IsSorted (
  (λ e. omega (arith, ap head_or_zero e)),
  ((λ e. omega (arith, ap head_or_zero e)), ((λ e. omega (arith, ap head_or_zero e)), tt)),
)

find_child-split_example :
    let (left, right, separator) = split_branch 12 branch in
    (find_child key_25 branch).0 ≡ (
      if lt_bytes key_25 separator then (find_child key_25 left).0 else (find_child key_25 right).0)
find_child-split_example = find_child-split key_25 12 branch (omega arith) branch-IsSorted
