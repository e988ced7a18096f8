-- ===== src/BTree/Leaf/Refinement.antt =====
-- The leaf as a finite map: what a lookup finds after an insertion, a deletion and a split.
use gemgraph.Base.{
  ℕ, ◌≡◌, refl, sym, true, false, List, [], ◌∷◌, Option, none, some, if◌then◌else◌, Result, ok, err,
  get_elem?, All, arith,
}
use Prim.Native.Nat.{Ordering}
use Prim.Native.Nat.Ordering.{lt, eq, gt}
use gemgraph.Bytes.Order.{compare_bytes, eq_bytes, eq_of_compare_bytes, lt_of_gt, gt_of_lt}
use gemgraph.BTree.Leaf.{
  LeafEntry, LeafNode, shift, search_entries, search, upserted, upsert, deleted, delete, get,
}
use gemgraph.BTree.Leaf.Sorted.{IsSorted, IsAbove, IsAbove-trans, upserted-cons, upsert-IsSorted}

-- The map that the entries stand for.
unfoldable pub find : List ℕ → List LeafEntry → Option (List ℕ)
find key [] = none
find key (e ∷ es) = let rest = find key es in if eq_bytes e.key key then some e.value else rest

pub find-above : (key : List ℕ) (es : List LeafEntry) → All (IsAbove key) es → find key es ≡ none
unfolding find
find-above key [] h = refl
find-above key (e ∷ es) h = ground (arith, find-above key es h.1, gt_of_lt key e.key h.0)

abbrev value_at : List LeafEntry → Result ℕ ℕ → Option (List ℕ)
value_at es (err i) = none
value_at es (ok i) = elim (get_elem? es i) [ none ↦ none | some e ↦ some e.value ]

value_at-search :
    (key : List ℕ) (es : List LeafEntry)
    → IsSorted es
    → value_at es (search_entries key es) ≡ find key es
unfolding search_entries find
value_at-search key [] h = refl
value_at-search key (e ∷ es) h =
    by_order (compare_bytes e.key key) (search_entries key es) refl (value_at-search key es h.1)
  where
    by_order :
        (o : Ordering) (r : Result ℕ ℕ)
        → compare_bytes e.key key ≡ o
        → value_at es r ≡ find key es
        → value_at (e ∷ es) (elim o [ lt ↦ shift r | eq ↦ ok 0 | gt ↦ err 0 ])
          ≡ (if elim o [ eq ↦ true | _ ↦ false ] then some e.value else find key es)
    by_order lt (ok i) c rest = rest
    by_order lt (err i) c rest = rest
    by_order eq r c rest = refl
    by_order gt r c rest =
        sym (find-above key es (IsAbove-trans key e es (lt_of_gt e.key key c) h.0))

-- The binary search of a sorted leaf finds what its map holds.
pub get-eq-find :
    (key : List ℕ) (node : LeafNode) → IsSorted node.entries → get key node ≡ find key node.entries
unfolding get search
get-eq-find key node h =
    by_result (search_entries key node.entries) (value_at-search key node.entries h)
  where
    by_result :
        (r : Result ℕ ℕ)
        → value_at node.entries r ≡ find key node.entries
        → elim r [
          | err i ↦ none
          | ok i ↦ elim (get_elem? node.entries i) [ none ↦ none | some e ↦ some e.value ]
        ]
          ≡ find key node.entries
    by_result (ok i) e = e
    by_result (err i) e = e

find-upserted :
    (key value other : List ℕ) (es : List LeafEntry)
    → find other (upserted key value es (search_entries key es))
      ≡ (if eq_bytes key other then some value else find other es)
unfolding search_entries find
find-upserted key value other [] = refl
find-upserted key value other (e ∷ es) =
    rw (upserted-cons key value e es)
      (by_order (compare_bytes e.key key) refl (find-upserted key value other es))
  where
    by_order :
        (o : Ordering)
        → compare_bytes e.key key ≡ o
        → find other (upserted key value es (search_entries key es))
          ≡ (if eq_bytes key other then some value else find other es)
        → find other (elim o [
          | lt ↦ e ∷ upserted key value es (search_entries key es)
          | eq ↦ record e { value = value } ∷ es
          | gt ↦ record { key = key; value = value } ∷ e ∷ es
        ])
          ≡ (if eq_bytes key other
              then some value
              else (if eq_bytes e.key other then some e.value else find other es))
    by_order lt c rest = ground (
      arith,
      rest,
      gt_of_lt e.key key c,
      eq_of_compare_bytes e.key other,
      eq_of_compare_bytes key other,
    )
    by_order eq c rest = ground (arith, eq_of_compare_bytes e.key key c)
    by_order gt c rest = refl

-- An insertion into a sorted leaf keeps it sorted, binds its key to its value and leaves the other keys
-- as they were.
pub find-upsert :
    (key value other : List ℕ) (node : LeafNode)
    → IsSorted node.entries
    → IsSorted (upsert key value node).entries
      × (find other (upsert key value node).entries
          ≡ (if eq_bytes key other then some value else find other node.entries))
unfolding upsert search
find-upsert key value other node sorted =
    (upsert-IsSorted key value node sorted, find-upserted key value other node.entries)

find-deleted :
    (key other : List ℕ) (es : List LeafEntry) (id : ℕ)
    → IsSorted es
    → find other (deleted (record { page_id = id; entries = es }) (search_entries key es)).1.entries
      ≡ (if eq_bytes key other then none else find other es)
unfolding search_entries find
find-deleted key other [] id h = ground arith
find-deleted key other (e ∷ es) id h =
    by_order (compare_bytes e.key key) (search_entries key es) refl
      (find-deleted key other es id h.1)
  where
    by_order :
        (o : Ordering) (r : Result ℕ ℕ)
        → compare_bytes e.key key ≡ o
        → find other (deleted (record { page_id = id; entries = es }) r).1.entries
          ≡ (if eq_bytes key other then none else find other es)
        → find other
            (deleted
              (record { page_id = id; entries = e ∷ es })
              (elim o [ lt ↦ shift r | eq ↦ ok 0 | gt ↦ err 0 ])).1.entries
          ≡ (if eq_bytes key other
              then none
              else (if eq_bytes e.key other then some e.value else find other es))
    by_order lt (ok i) c rest = ground (
      arith,
      rest,
      gt_of_lt e.key key c,
      eq_of_compare_bytes e.key other,
      eq_of_compare_bytes key other,
    )
    by_order lt (err i) c rest = ground (
      arith,
      rest,
      gt_of_lt e.key key c,
      eq_of_compare_bytes e.key other,
      eq_of_compare_bytes key other,
    )
    by_order eq r c rest = ground (
      arith,
      find-above e.key es h.0,
      eq_of_compare_bytes e.key key c,
      eq_of_compare_bytes key other,
    )
    by_order gt r c rest = ground (
      arith,
      c,
      eq_of_compare_bytes key other,
      find-above key es (IsAbove-trans key e es (lt_of_gt e.key key c) h.0),
    )

-- A deletion unbinds its key and leaves the other keys as they were.
pub find-delete :
    (key other : List ℕ) (node : LeafNode)
    → IsSorted node.entries
    → find other (delete key node).1.entries
      ≡ (if eq_bytes key other then none else find other node.entries)
unfolding delete search
find-delete key other node h = find-deleted key other node.entries node.page_id h
