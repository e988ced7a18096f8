-- ===== src/BTree/Leaf/Sorted.antt =====
-- The entries of a leaf stay sorted, with distinct keys.
use gemgraph.Base.{ℕ, zero, suc, ◌≡◌, refl, List, [], ◌∷◌, Result, ok, err, All}
use Prim.Native.Nat.{Ordering}
use Prim.Native.Nat.Ordering.{lt, eq, gt}
use gemgraph.Bytes.Order.{compare_bytes, ◌≺◌, lt_of_gt, lt_trans}
use gemgraph.BTree.Leaf.{
  LeafEntry, LeafNode, shift, search_entries, search, remove_at, upserted, upsert, deleted, delete,
}

abbrev pub IsAbove : List ℕ → LeafEntry → Type 0
IsAbove key e = key ≺ e.key

abbrev pub IsSorted : List LeafEntry → Type 0
IsSorted [] = Unit {0}
IsSorted (e ∷ es) = All (IsAbove e.key) es × IsSorted es

pub IsAbove-trans :
    (key : List ℕ) (e : LeafEntry) (es : List LeafEntry)
    → IsAbove key e
    → All (IsAbove e.key) es
    → All (IsAbove key) es
IsAbove-trans key e [] h k = tt
IsAbove-trans key e (x ∷ es) h k = (lt_trans key e.key x.key h k.0, IsAbove-trans key e es h k.1)

-- What a search says of the first entry.
pub upserted-cons :
    (key value : List ℕ) (e : LeafEntry) (es : List LeafEntry)
    → upserted key value (e ∷ es) (search_entries key (e ∷ es)) ≡ elim (compare_bytes e.key key) [
      | lt ↦ e ∷ upserted key value es (search_entries key es)
      | eq ↦ record e { value = value } ∷ es
      | gt ↦ record { key = key; value = value } ∷ e ∷ es
    ]
unfolding search_entries
upserted-cons key value e es = by_order (compare_bytes e.key key) (search_entries key es)
  where
    by_order :
        (o : Ordering) (r : Result ℕ ℕ)
        → upserted key value (e ∷ es) (elim o [ lt ↦ shift r | eq ↦ ok 0 | gt ↦ err 0 ]) ≡ elim o [
          | lt ↦ e ∷ upserted key value es r
          | eq ↦ record e { value = value } ∷ es
          | gt ↦ record { key = key; value = value } ∷ e ∷ es
        ]
    by_order lt (ok i) = refl
    by_order lt (err i) = refl
    by_order eq r = refl
    by_order gt r = refl

upserted-IsAbove :
    (low key value : List ℕ) (es : List LeafEntry)
    → low ≺ key
    → All (IsAbove low) es
    → All (IsAbove low) (upserted key value es (search_entries key es))
unfolding search_entries
upserted-IsAbove low key value [] h k = (h, tt)
upserted-IsAbove low key value (e ∷ es) h k =
    rw (upserted-cons key value e es)
      (by_order (compare_bytes e.key key) (upserted-IsAbove low key value es h k.1))
  where
    by_order :
        (o : Ordering)
        → All (IsAbove low) (upserted key value es (search_entries key es))
        → All (IsAbove low) (elim o [
          | lt ↦ e ∷ upserted key value es (search_entries key es)
          | eq ↦ record e { value = value } ∷ es
          | gt ↦ record { key = key; value = value } ∷ e ∷ es
        ])
    by_order lt rest = (k.0, rest)
    by_order eq rest = (k.0, k.1)
    by_order gt rest = (h, k)

upserted-IsSorted :
    (key value : List ℕ) (es : List LeafEntry)
    → IsSorted es
    → IsSorted (upserted key value es (search_entries key es))
unfolding search_entries
upserted-IsSorted key value [] h = (tt, tt)
upserted-IsSorted key value (e ∷ es) h =
    rw (upserted-cons key value e es)
      (by_order (compare_bytes e.key key) refl (upserted-IsSorted key value es h.1))
  where
    by_order :
        (o : Ordering)
        → compare_bytes e.key key ≡ o
        → IsSorted (upserted key value es (search_entries key es))
        → IsSorted (elim o [
          | lt ↦ e ∷ upserted key value es (search_entries key es)
          | eq ↦ record e { value = value } ∷ es
          | gt ↦ record { key = key; value = value } ∷ e ∷ es
        ])
    by_order lt c rest = (upserted-IsAbove e.key key value es c h.0, rest)
    by_order eq c rest = h
    by_order gt c rest =
        let below : key ≺ e.key = lt_of_gt e.key key c in
        ((below, IsAbove-trans key e es below h.0), h)

pub upsert-IsSorted :
    (key value : List ℕ) (node : LeafNode)
    → IsSorted node.entries
    → IsSorted (upsert key value node).entries
unfolding upsert search
upsert-IsSorted key value node h = upserted-IsSorted key value node.entries h

remove_at-IsAbove :
    (i : ℕ) (low : List ℕ) (es : List LeafEntry)
    → All (IsAbove low) es
    → All (IsAbove low) (remove_at i es)
remove_at-IsAbove zero low [] h = tt
remove_at-IsAbove (suc i) low [] h = tt
remove_at-IsAbove zero low (e ∷ es) h = h.1
remove_at-IsAbove (suc i) low (e ∷ es) h = (h.0, remove_at-IsAbove i low es h.1)

remove_at-IsSorted : (i : ℕ) (es : List LeafEntry) → IsSorted es → IsSorted (remove_at i es)
remove_at-IsSorted zero [] h = tt
remove_at-IsSorted (suc i) [] h = tt
remove_at-IsSorted zero (e ∷ es) h = h.1
remove_at-IsSorted (suc i) (e ∷ es) h =
    (remove_at-IsAbove i e.key es h.0, remove_at-IsSorted i es h.1)

pub delete-IsSorted :
    (key : List ℕ) (node : LeafNode) → IsSorted node.entries → IsSorted (delete key node).1.entries
unfolding delete search
delete-IsSorted key node h = by_result (search_entries key node.entries)
  where
    by_result : (r : Result ℕ ℕ) → IsSorted (deleted node r).1.entries
    by_result (ok i) = remove_at-IsSorted i node.entries h
    by_result (err i) = h
