-- ===== src/BTree/Leaf/Split.antt =====
-- The two halves of a leaf that is split, and the separator that the parent routes by.
use gemgraph.Base.{
  ℕ, zero, suc, ◌/◌, ◌<◌, ◌≤◌, ◌≡◌, refl, ap, sym, ◌∙◌, List, [], ◌∷◌, ◌++◌, none, if◌then◌else◌,
  length, length-take, length-drop, take, drop, take-append-drop, All, All-take, true, false, arith,
}
use Prim.Native.Nat.{Ordering}
use Prim.Native.Nat.Ordering.{lt, eq, gt}
use gemgraph.Bytes.Order.{compare_bytes, lt_bytes, ◌≺◌, eq_of_compare_bytes, lt_of_gt, lt_trans}
use gemgraph.BTree.Leaf.{LeafEntry, LeafNode, split, first_key}
use gemgraph.BTree.Leaf.Sorted.{IsSorted, IsAbove, IsAbove-trans}
use gemgraph.BTree.Leaf.Refinement.{find, find-above}

abbrev IsBelow : List ℕ → LeafEntry → Type 0
IsBelow key e = e.key ≺ key

-- Where a sorted list is cut, the parts are sorted, and the front stands below the first key behind.
cut-IsSorted :
    (n : ℕ) (es : List LeafEntry)
    → n < length es
    → IsSorted es
    → IsSorted (take n es)
      × IsSorted (drop n es)
      × All (IsBelow (first_key (drop n es))) (take n es)
cut-IsSorted zero es h s = (tt, s, tt)
cut-IsSorted (suc n) [] h s = absurd (omega arith)
cut-IsSorted (suc n) (e ∷ es) h s =
    let (front, back, below) = cut-IsSorted n es (omega arith) s.1 in
    (
      (All-take (IsAbove e.key) n es s.0, front),
      back,
      (first-above n e es (omega arith) s.0, below),
    )
  where
    first-above :
        (n : ℕ) (e : LeafEntry) (es : List LeafEntry)
        → n < length es
        → All (IsAbove e.key) es
        → e.key ≺ first_key (drop n es)
    first-above zero e [] h s = absurd (omega arith)
    first-above zero e (x ∷ es) h s = s.0
    first-above (suc n) e [] h s = absurd (omega arith)
    first-above (suc n) e (x ∷ es) h s = first-above n e es (omega arith) s.1

find-below : (key : List ℕ) (es : List LeafEntry) → All (λ e. (e.key ≺ key)) es → find key es ≡ none
unfolding find
find-below key [] h = refl
find-below key (e ∷ es) h = ground (arith, h.0, find-below key es h.1)

find-append_none :
    (key : List ℕ) (a b : List LeafEntry) → find key a ≡ none → find key (a ++ b) ≡ find key b
unfolding find
find-append_none key [] b h = refl
find-append_none key (e ∷ a) b h = ground (arith, find-append_none key a b)

find-append_right :
    (key : List ℕ) (a b : List LeafEntry) → find key b ≡ none → find key (a ++ b) ≡ find key a
unfolding find
find-append_right key [] b h = h
find-append_right key (e ∷ a) b h = ground (arith, find-append_right key a b h)

All-IsBelow_trans :
    (low key : List ℕ) (es : List LeafEntry)
    → All (IsBelow low) es
    → low ≺ key
    → All (IsBelow key) es
All-IsBelow_trans low key [] h k = tt
All-IsBelow_trans low key (e ∷ es) h k =
    (lt_trans e.key low key h.0 k, All-IsBelow_trans low key es h.1 k)

-- A separator routes every key to the half that holds it.
routed :
    (key : List ℕ) (a b : List LeafEntry)
    → 0 < length b
    → IsSorted b
    → All (IsBelow (first_key b)) a
    → find key (a ++ b) ≡ (if lt_bytes key (first_key b) then find key a else find key b)
routed key a [] h s below = absurd (omega arith)
routed key a (e ∷ b) h s below = by_order (compare_bytes key e.key) refl
  where
    by_order :
        (o : Ordering)
        → compare_bytes key e.key ≡ o
        → find key (a ++ e ∷ b)
          ≡ (if elim o [ lt ↦ true | _ ↦ false ] then find key a else find key (e ∷ b))
    by_order lt c =
        find-append_right key a (e ∷ b) (find-above key (e ∷ b) (c, IsAbove-trans key e b c s.0))
    by_order eq c =
        find-append_none key a (e ∷ b)
          (find-below key a (rw (eq_of_compare_bytes key e.key c) below))
    by_order gt c =
        find-append_none key a (e ∷ b)
          (find-below key a (All-IsBelow_trans e.key key a below (lt_of_gt key e.key c)))

-- A leaf of two entries at least is split into two that are not empty, are sorted and have all of
-- its entries. A key below the separator, the first key of the right one, is bound in the leaf as it
-- is in the left one, and every other key as it is in the right one.
pub split_lem :
    (key : List ℕ) (new_page_id : ℕ) (node : LeafNode)
    → 2 ≤ length node.entries
    → IsSorted node.entries
    → let (left, right, separator) = split new_page_id node in
      (left.entries ++ right.entries ≡ node.entries)
      × (0 < length left.entries)
      × (0 < length right.entries)
      × IsSorted left.entries
      × IsSorted right.entries
      × (find key node.entries
          ≡ (if lt_bytes key separator then find key left.entries else find key right.entries))
unfolding split
split_lem key new_page_id node two s =
    let es = node.entries in
    let mid = length es / 2 in
    let (front, back, below) = cut-IsSorted mid es (omega arith) s in
    let right : 0 < length (drop mid es) = omega (arith, length-drop mid es) in
    (
      take-append-drop mid es,
      omega (arith, length-take mid es),
      right,
      front,
      back,
      ap (find key) (sym (take-append-drop mid es))
          ∙ routed key (take mid es) (drop mid es) right back below,
    )
