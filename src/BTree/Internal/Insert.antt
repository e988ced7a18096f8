-- ===== src/BTree/Internal/Insert.antt =====
-- Routing through an internal node after one of its children has been split.
use gemgraph.Base.{
  ℕ, suc, ◌+◌, ◌≡◌, ◌≢◌, refl, List, [], ◌∷◌, if◌then◌else◌, ◌==◌, Result, ok, err, All, arith,
}
use Prim.Native.Nat.{Ordering}
use Prim.Native.Nat.Ordering.{lt, eq, gt}
use gemgraph.Bytes.Order.{
  compare_bytes, lt_bytes, eq_of_compare_bytes, gt_of_lt, lt_of_gt, lt_trans,
}
use gemgraph.BTree.Internal.Sorted.{IsSorted, inserted-cons, inserted-IsSorted}
use gemgraph.BTree.Leaf.{shift}
use gemgraph.BTree.Internal.{
  InternalEntry, InternalNode, find_child_loop, find_child, search_internal, position, inserted,
  insert_key,
}

-- The child that a key goes to, and its index.
unfoldable pub child_of : List ℕ → ℕ → List InternalEntry → ℕ
child_of key right [] = right
child_of key right (e ∷ es) =
    let rest = child_of key right es in if lt_bytes key e.key then e.child else rest

unfoldable pub slot_of : List ℕ → List InternalEntry → ℕ
slot_of key [] = 0
slot_of key (e ∷ es) = let rest = slot_of key es in if lt_bytes key e.key then 0 else suc rest

pub find_child_loop_lem :
    (key : List ℕ) (right : ℕ) (es : List InternalEntry) (i : ℕ)
    → find_child_loop key right es i ≡ (child_of key right es, slot_of key es + i)
unfolding find_child_loop child_of slot_of
find_child_loop_lem key right [] i = ground arith
find_child_loop_lem key right (e ∷ es) i =
    rw (find_child_loop_lem key right es (i + 1)) (ground arith)

child_of-inserted :
    (key other : List ℕ) (left right old : ℕ) (es : List InternalEntry)
    → All (λ e. e.key ≢ key) es
    → let (entries, right') = inserted key left right es old (position (search_internal key es)) in
      child_of other right' entries ≡ (
        if slot_of other es == slot_of key es
        then (if lt_bytes other key then left else right)
        else child_of other old es)
unfolding search_internal child_of slot_of
child_of-inserted key other left right old [] new = refl
child_of-inserted key other left right old (e ∷ es) new =
    by_order (compare_bytes e.key key) refl (child_of-inserted key other left right old es new.1)
  where
    by_order :
        (o : Ordering)
        → compare_bytes e.key key ≡ o
        → (let (entries, right') =
              inserted key left right es old (position (search_internal key es)) in
            child_of other right' entries ≡ (
              if slot_of other es == slot_of key es
              then (if lt_bytes other key then left else right)
              else child_of other old es))
        → let r : Result ℕ ℕ = elim o [
          | lt ↦ shift (search_internal key es)
          | eq ↦ ok 0
          | gt ↦ err 0
        ] in
          let (entries, right') = inserted key left right (e ∷ es) old (position r) in
          child_of other right' entries ≡ (
            if slot_of other (e ∷ es) == slot_of key (e ∷ es)
            then (if lt_bytes other key then left else right)
            else child_of other old (e ∷ es))
    by_order lt c rest =
        rw (inserted-cons key left right old e es (search_internal key es))
          (ground (arith, rest, gt_of_lt e.key key c))
    by_order eq c rest = absurd (new.0 (eq_of_compare_bytes e.key key c))
    by_order gt c rest = ground (arith, lt_of_gt e.key key c, lt_trans other key e.key)

-- A child of a sorted node was split: the separator, which is not there yet, and the two halves are
-- inserted where the key was routed. The node stays sorted, the keys that were routed to that child now
-- go to the left half where they are below the separator and to the right half where they are not, and
-- all others go where they went.
pub find_child-insert_key :
    (key other : List ℕ) (left right : ℕ) (node : InternalNode)
    → IsSorted node.entries
    → All (λ e. e.key ≢ key) node.entries
    → IsSorted (insert_key key left right node).entries
      × ((find_child other (insert_key key left right node)).0 ≡ (
          if (find_child other node).1 == (find_child key node).1
          then (if lt_bytes other key then left else right)
          else (find_child other node).0))
unfolding find_child insert_key
find_child-insert_key key other left right node sorted new = (
  inserted-IsSorted key left right node.right_child node.entries sorted new,
  ground (
    arith,
    child_of-inserted key other left right node.right_child node.entries new,
    find_child_loop_lem other node.right_child node.entries 0,
    find_child_loop_lem key node.right_child node.entries 0,
    find_child_loop_lem other
        (inserted key left right node.entries node.right_child
          (position (search_internal key node.entries))).1
        (inserted key left right node.entries node.right_child
          (position (search_internal key node.entries))).0
        0,
  ),
)
