-- ===== src/BTree/Internal/Sorted.antt =====
-- The separators of an internal node stay sorted, with distinct keys.
use mathlib.Core.Path.{subst}
use gemgraph.Base.{ℕ, ◌≡◌, ◌≢◌, refl, sym, ap, List, [], ◌∷◌, Result, ok, err, All, arith}
use Prim.Native.Nat.{Ordering}
use Prim.Native.Nat.Ordering.{lt, eq, gt}
use gemgraph.Bytes.Order.{compare_bytes, ◌≺◌, eq_of_compare_bytes, lt_of_gt, lt_trans}
use gemgraph.BTree.Leaf.{shift}
use gemgraph.BTree.Internal.{InternalEntry, search_internal, position, inserted}

abbrev pub IsAbove : List ℕ → List InternalEntry → Type 0
IsAbove low es = All (λ x. (low ≺ x.key)) es

abbrev pub IsSorted : List InternalEntry → Type 0
IsSorted [] = Unit {0}
IsSorted (e ∷ es) = IsAbove e.key es × IsSorted es

IsAbove-trans :
    (low key : List ℕ) (es : List InternalEntry) → low ≺ key → IsAbove key es → IsAbove low es
IsAbove-trans low key [] h k = tt
IsAbove-trans low key (x ∷ es) h k = (lt_trans low key x.key h k.0, IsAbove-trans low key es h k.1)

-- Behind a first entry that is smaller, the others take the new one.
pub inserted-cons :
    (key : List ℕ) (left right old : ℕ) (e : InternalEntry) (es : List InternalEntry)
    (r : Result ℕ ℕ)
    → inserted key left right (e ∷ es) old (position (shift r)) ≡ (
        let (entries, right') = inserted key left right es old (position r) in
        (e ∷ entries, right'))
inserted-cons key left right old e es (ok i) = ground arith
inserted-cons key left right old e es (err i) = ground arith

-- The entries with the new one, and the search that places it.
abbrev with_key : List ℕ → ℕ → ℕ → ℕ → List InternalEntry → Result ℕ ℕ → List InternalEntry
with_key key left right old es r = (inserted key left right es old (position r)).0

with_key-cons :
    (key : List ℕ) (left right old : ℕ) (e : InternalEntry) (es : List InternalEntry)
    (r : Result ℕ ℕ)
    → with_key key left right old (e ∷ es) (shift r) ≡ e ∷ with_key key left right old es r
with_key-cons key left right old e es r =
    ap (λ (x : List InternalEntry × ℕ). x.0) (inserted-cons key left right old e es r)

with_key-first :
    (key : List ℕ) (left right old : ℕ) (e : InternalEntry) (es : List InternalEntry)
    → with_key key left right old (e ∷ es) (err 0)
      ≡ record { key = key; child = left } ∷ record e { child = right } ∷ es
with_key-first key left right old e es = ground arith

module _ (key : List ℕ) (left right old : ℕ) where
  inserted-IsAbove :
      (low : List ℕ) (es : List InternalEntry)
      → low ≺ key
      → IsAbove low es
      → All (λ e. e.key ≢ key) es
      → IsAbove low (with_key key left right old es (search_internal key es))
  unfolding search_internal
  inserted-IsAbove low [] h k new = (h, tt)
  inserted-IsAbove low (e ∷ es) h k new =
      by_order (compare_bytes e.key key) refl (inserted-IsAbove low es h k.1 new.1)
    where
      by_order :
          (o : Ordering)
          → compare_bytes e.key key ≡ o
          → IsAbove low (with_key key left right old es (search_internal key es))
          → IsAbove low (
              with_key key left right old
                (e ∷ es)
                (elim o [ lt ↦ shift (search_internal key es) | eq ↦ ok 0 | gt ↦ err 0 ]))
      by_order lt c rest =
          subst (IsAbove low) (sym (with_key-cons key left right old e es (search_internal key es)))
            (k.0, rest)
      by_order eq c rest = absurd (new.0 (eq_of_compare_bytes e.key key c))
      by_order gt c rest = subst (IsAbove low) (sym (with_key-first key left right old e es)) (h, k)

  pub inserted-IsSorted :
      (es : List InternalEntry)
      → IsSorted es
      → All (λ e. e.key ≢ key) es
      → IsSorted (with_key key left right old es (search_internal key es))
  unfolding search_internal
  inserted-IsSorted [] h new = (tt, tt)
  inserted-IsSorted (e ∷ es) h new =
      by_order (compare_bytes e.key key) refl (inserted-IsSorted es h.1 new.1)
    where
      by_order :
          (o : Ordering)
          → compare_bytes e.key key ≡ o
          → IsSorted (with_key key left right old es (search_internal key es))
          → IsSorted (
              with_key key left right old
                (e ∷ es)
                (elim o [ lt ↦ shift (search_internal key es) | eq ↦ ok 0 | gt ↦ err 0 ]))
      by_order lt c rest =
          subst IsSorted (sym (with_key-cons key left right old e es (search_internal key es)))
            (inserted-IsAbove e.key es c h.0 new.1, rest)
      by_order eq c rest = absurd (new.0 (eq_of_compare_bytes e.key key c))
      by_order gt c rest =
          let below : key ≺ e.key = lt_of_gt e.key key c in
          subst IsSorted (sym (with_key-first key left right old e es))
            ((below, IsAbove-trans key e.key es below h.0), h)
