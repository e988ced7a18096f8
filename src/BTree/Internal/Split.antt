-- ===== src/BTree/Internal/Split.antt =====
-- Routing through the two halves of an internal node that is split.
use gemgraph.Base.{
  ℕ, zero, suc, ◌+◌, ◌/◌, ◌<◌, ◌≡◌, List, [], ◌∷◌, length, take, drop, if◌then◌else◌, All, arith,
}
use gemgraph.Bytes.Order.{lt_bytes, ◌≺◌, lt_trans}
use gemgraph.BTree.Internal.{InternalEntry, InternalNode, find_child, key_at, child_at, split}
use gemgraph.BTree.Internal.Sorted.{IsSorted}
use gemgraph.BTree.Internal.Insert.{child_of, find_child_loop_lem}

key_at_above :
    (n : ℕ) (low : List ℕ) (es : List InternalEntry)
    → n < length es
    → All (λ x. (low ≺ x.key)) es
    → low ≺ key_at n es
key_at_above n low [] h k = absurd (omega arith)
key_at_above zero low (e ∷ es) h k = k.0
key_at_above (suc n) low (e ∷ es) h k = key_at_above n low es (omega arith) k.1

child_of-cut :
    (n : ℕ) (key : List ℕ) (right : ℕ) (es : List InternalEntry)
    → n < length es
    → IsSorted es
    → child_of key right es ≡ (
        if lt_bytes key (key_at n es)
        then child_of key (child_at n es) (take n es)
        else child_of key right (drop (n + 1) es))
unfolding child_of
child_of-cut n key right [] h s = absurd (omega arith)
child_of-cut zero key right (e ∷ es) h s = ground arith
child_of-cut (suc n) key right (e ∷ es) h s = ground (
  arith,
  child_of-cut n key right es (omega arith) s.1,
  lt_trans key e.key (key_at n es),
  key_at_above n e.key es (omega arith) s.0,
)

-- A sorted internal node with a key at least is split: a key goes to the child that it went to,
-- through the left node where it is below the separator, and through the right one where it is not.
pub find_child-split :
    (key : List ℕ) (new_page_id : ℕ) (node : InternalNode)
    → 0 < length node.entries
    → IsSorted node.entries
    → let (left, right, separator) = split new_page_id node in
      (find_child key node).0
      ≡ (if lt_bytes key separator then (find_child key left).0 else (find_child key right).0)
unfolding split find_child
find_child-split key new_page_id node h s =
    let es = node.entries in
    let mid = length es / 2 in
    ground (
      arith,
      child_of-cut mid key node.right_child es (omega arith) s,
      find_child_loop_lem key node.right_child es 0,
      find_child_loop_lem key (child_at mid es) (take mid es) 0,
      find_child_loop_lem key node.right_child (drop (mid + 1) es) 0,
    )
