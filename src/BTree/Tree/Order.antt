-- ===== src/BTree/Tree/Order.antt =====
-- Which subtree holds a key of an ordered tree.
use gemgraph.Base.{
  ℕ, zero, suc, ◌≡◌, refl, ◌∙◌, Bool, true, false, List, [], ◌∷◌, ◌++◌, Option, none, some,
  if◌then◌else◌, All, arith,
}
use gemgraph.Bytes.Order.{lt_bytes, eq_bytes, eq_of_compare_bytes}
use gemgraph.BTree.Leaf.{LeafEntry}
use gemgraph.BTree.Leaf.Sorted.{IsSorted}
use gemgraph.BTree.Leaf.Refinement.{find}
use gemgraph.BTree.Tree.Model.{
  Child, Tree, flatten_children, flatten, IsBelow, IsFrom, AreOrdered, IsOrdered, pick, descend,
}

-- No entry has the key.
abbrev pub Lacks : List ℕ → List LeafEntry → Type 0
Lacks key es = All (λ (e : LeafEntry). eq_bytes e.key key ≡ false) es

pub find-append_left :
    (key : List ℕ) (xs ys : List LeafEntry) → Lacks key ys → find key (xs ++ ys) ≡ find key xs
unfolding find
find-append_left key [] [] h = refl
find-append_left key [] (y ∷ ys) h = ground (arith, h.0, find-append_left key [] ys h.1)
find-append_left key (x ∷ xs) ys h = ground (arith, find-append_left key xs ys h)

pub find-append_right :
    (key : List ℕ) (xs ys : List LeafEntry) → Lacks key xs → find key (xs ++ ys) ≡ find key ys
unfolding find
find-append_right key [] ys h = refl
find-append_right key (x ∷ xs) ys h = ground (arith, h.0, find-append_right key xs ys h.1)

abbrev or_else : Option (List ℕ) → Option (List ℕ) → Option (List ℕ)
or_else (some v) o = some v
or_else none o = o

pub find-append :
    (key : List ℕ) (xs ys : List LeafEntry)
    → find key (xs ++ ys) ≡ or_else (find key xs) (find key ys)
unfolding find
find-append key [] ys = refl
find-append key (x ∷ xs) ys = ground (arith, find-append key xs ys)

pub find-Lacks : (key : List ℕ) (es : List LeafEntry) → Lacks key es → find key es ≡ none
unfolding find
find-Lacks key [] h = refl
find-Lacks key (e ∷ es) h = ground (arith, h.0, find-Lacks key es h.1)

-- Keys below a separator are not a key that is not below it, and the other way round.
pub below-Lacks :
    (key sep : List ℕ) (es : List LeafEntry)
    → lt_bytes key sep ≡ false
    → All (IsBelow sep) es
    → Lacks key es
below-Lacks key sep [] h k = tt
below-Lacks key sep (e ∷ es) h k =
    (ground (arith, k.0, eq_of_compare_bytes e.key key), below-Lacks key sep es h k.1)

pub from-Lacks :
    (key sep : List ℕ) (es : List LeafEntry)
    → lt_bytes key sep ≡ true
    → All (IsFrom sep) es
    → Lacks key es
from-Lacks key sep [] h k = tt
from-Lacks key sep (e ∷ es) h k =
    (ground (arith, k.0, eq_of_compare_bytes e.key key), from-Lacks key sep es h k.1)

module _ {T : Type 0} (P : T → Type 0) (f : T → List LeafEntry) where
  pub pick-AreOrdered :
      (key : List ℕ) (cs : List (Child T)) (last : T)
      → AreOrdered P f cs last
      → P (pick key cs last)
  unfolding pick
  pick-AreOrdered key [] last h = h
  pick-AreOrdered key (c ∷ cs) last (here, below, above, rest) =
      by_test (lt_bytes key c.key) (pick-AreOrdered key cs last rest)
    where
      by_test : (b : Bool) → P (pick key cs last) → P (if b then c.subtree else pick key cs last)
      by_test true h = here
      by_test false h = h

  find-pick :
      (key : List ℕ) (cs : List (Child T)) (last : T)
      → AreOrdered P f cs last
      → find key (flatten_children f cs last) ≡ find key (f (pick key cs last))
  unfolding pick
  find-pick key [] last h = refl
  find-pick key (c ∷ cs) last (here, below, above, rest) =
      by_test (lt_bytes key c.key) refl (find-pick key cs last rest)
    where
      by_test :
          (b : Bool)
          → lt_bytes key c.key ≡ b
          → find key (flatten_children f cs last) ≡ find key (f (pick key cs last))
          → find key (f c.subtree ++ flatten_children f cs last)
            ≡ find key (f (if b then c.subtree else pick key cs last))
      by_test true e h =
          find-append_left key (f c.subtree) (flatten_children f cs last)
            (from-Lacks key c.key (flatten_children f cs last) e above)
      by_test false e h =
          find-append_right key (f c.subtree) (flatten_children f cs last)
            (below-Lacks key c.key (f c.subtree) e below)
          ∙ h

-- The leaf that a key goes to decides what the tree holds at the key.
pub find-descend :
    (h : ℕ) (key : List ℕ) (t : Tree h)
    → IsOrdered h t
    → find key (flatten h t) ≡ find key (descend h key t).entries
unfolding descend
find-descend zero key leaf o = refl
find-descend (suc h) key b o =
    find-pick (IsOrdered h) (flatten h) key b.children b.last o
    ∙ find-descend h key (pick key b.children b.last)
        (pick-AreOrdered (IsOrdered h) (flatten h) key b.children b.last o)

pub descend-IsSorted :
    (h : ℕ) (key : List ℕ) (t : Tree h) → IsOrdered h t → IsSorted (descend h key t).entries
unfolding descend
descend-IsSorted zero key leaf o = o
descend-IsSorted (suc h) key b o =
    descend-IsSorted h key (pick key b.children b.last)
      (pick-AreOrdered (IsOrdered h) (flatten h) key b.children b.last o)
