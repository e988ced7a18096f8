-- ===== src/BTree/Tree/Replace/Keys.antt =====
-- The order and the entries of a tree with a replaced leaf.
use gemgraph.Base.{
  ℕ, zero, suc, ◌≡◌, refl, Bool, true, false, List, [], ◌∷◌, ◌++◌, Option, if◌then◌else◌, All,
  All-append, All-append_left, All-append_right, arith,
}
use gemgraph.Bytes.Order.{lt_bytes, eq_bytes, eq_of_compare_bytes}
use gemgraph.BTree.Leaf.{LeafEntry, LeafNode}
use gemgraph.BTree.Leaf.Sorted.{IsSorted}
use gemgraph.BTree.Leaf.Refinement.{find}
use gemgraph.BTree.Tree.Model.{
  Child, Tree, flatten_children, flatten, IsBelow, IsFrom, AreOrdered, IsOrdered, pick, descend,
}
use gemgraph.BTree.Tree.Order.{pick-AreOrdered, find-append, find-Lacks, below-Lacks, from-Lacks}
use gemgraph.BTree.Tree.Replace.{change, replace}

-- The new entries stay on the side of every separator on which the old entries and the key are.
pub record Keeps (key : List ℕ) (old new : List LeafEntry) : Type 0 where
  pub below :
      (sep : List ℕ) → lt_bytes key sep ≡ true → All (IsBelow sep) old → All (IsBelow sep) new
  pub above :
      (sep : List ℕ) → lt_bytes key sep ≡ false → All (IsFrom sep) old → All (IsFrom sep) new

Keeps-append_right :
    (key : List ℕ) (old new es : List LeafEntry)
    → Keeps key old new
    → Keeps key (old ++ es) (new ++ es)
Keeps-append_right key old new es k = record {
  below = λ sep h a.
      All-append (IsBelow sep) new es (k.below sep h (All-append_left (IsBelow sep) old es a))
        (All-append_right (IsBelow sep) old es a);
  above = λ sep h a.
      All-append (IsFrom sep) new es (k.above sep h (All-append_left (IsFrom sep) old es a))
        (All-append_right (IsFrom sep) old es a);
}

Keeps-append_left :
    (key : List ℕ) (es old new : List LeafEntry)
    → Keeps key old new
    → Keeps key (es ++ old) (es ++ new)
Keeps-append_left key es old new k = record {
  below = λ sep h a.
      All-append (IsBelow sep) es new (All-append_left (IsBelow sep) es old a)
        (k.below sep h (All-append_right (IsBelow sep) es old a));
  above = λ sep h a.
      All-append (IsFrom sep) es new (All-append_left (IsFrom sep) es old a)
        (k.above sep h (All-append_right (IsFrom sep) es old a));
}

module _ {T : Type 0} (IsOk : T → Type 0) (f : T → List LeafEntry) (g : T → T) (key : List ℕ) where
  flat_change : List (Child T) → T → List LeafEntry
  flat_change cs last = flatten_children f (change g key cs last).0 (change g key cs last).1

  change-Keeps :
      (cs : List (Child T)) (last : T)
      → Keeps key (f (pick key cs last)) (f (g (pick key cs last)))
      → Keeps key (flatten_children f cs last) (flat_change cs last)
  unfolding change pick flat_change
  change-Keeps [] last k = k
  change-Keeps (c ∷ cs) last k = by_test (lt_bytes key c.key) k (change-Keeps cs last)
    where
      by_test :
          (b : Bool)
          → Keeps key
              (f (if b then c.subtree else pick key cs last))
              (f (g (if b then c.subtree else pick key cs last)))
          → (Keeps key (f (pick key cs last)) (f (g (pick key cs last)))
              → Keeps key (flatten_children f cs last) (flat_change cs last))
          → let (cs', last') = change g key cs last in
            let now : List (Child T) × T =
              if b then (record c { subtree = g c.subtree } ∷ cs, last) else (c ∷ cs', last') in
            Keeps key (f c.subtree ++ flatten_children f cs last) (flatten_children f now.0 now.1)
      by_test true here rest =
          Keeps-append_right key (f c.subtree) (f (g c.subtree)) (flatten_children f cs last) here
      by_test false here rest =
          Keeps-append_left key (f c.subtree) (flatten_children f cs last) (flat_change cs last)
            (rest here)

  change-AreOrdered :
      (cs : List (Child T)) (last : T)
      → Keeps key (f (pick key cs last)) (f (g (pick key cs last)))
      → (IsOk (pick key cs last) → IsOk (g (pick key cs last)))
      → AreOrdered IsOk f cs last
      → AreOrdered IsOk f (change g key cs last).0 (change g key cs last).1
  unfolding change pick flat_change
  change-AreOrdered [] last k new o = new o
  change-AreOrdered (c ∷ cs) last k new (here, below, above, rest) =
      by_test (lt_bytes key c.key) refl k new (λ k' new'. change-AreOrdered cs last k' new' rest)
    where
      by_test :
          (b : Bool)
          → lt_bytes key c.key ≡ b
          → Keeps key
              (f (if b then c.subtree else pick key cs last))
              (f (g (if b then c.subtree else pick key cs last)))
          → (IsOk (if b then c.subtree else pick key cs last)
              → IsOk (g (if b then c.subtree else pick key cs last)))
          → (Keeps key (f (pick key cs last)) (f (g (pick key cs last)))
              → (IsOk (pick key cs last) → IsOk (g (pick key cs last)))
              → AreOrdered IsOk f (change g key cs last).0 (change g key cs last).1)
          → let (cs', last') = change g key cs last in
            let now : List (Child T) × T =
              if b then (record c { subtree = g c.subtree } ∷ cs, last) else (c ∷ cs', last') in
            AreOrdered IsOk f now.0 now.1
      by_test true e k' new' others = (new' here, k'.below c.key e below, above, rest)
      by_test false e k' new' others =
          (here, below, (change-Keeps cs last k').above c.key e above, others k' new')

  change-find :
      (other : List ℕ) (value : Option (List ℕ)) (cs : List (Child T)) (last : T)
      → (find other (f (g (pick key cs last)))
          ≡ (if eq_bytes key other then value else find other (f (pick key cs last))))
      → AreOrdered IsOk f cs last
      → find other (flat_change cs last)
        ≡ (if eq_bytes key other then value else find other (flatten_children f cs last))
  unfolding change pick flat_change
  change-find other value [] last new o = new
  change-find other value (c ∷ cs) last new (here, below, above, rest) =
      by_test (lt_bytes key c.key) refl new (λ new'. change-find other value cs last new' rest)
    where
      goes_on : List LeafEntry
      goes_on = flatten_children f cs last

      by_test :
          (b : Bool)
          → lt_bytes key c.key ≡ b
          → (find other (f (g (if b then c.subtree else pick key cs last))) ≡ (
              if eq_bytes key other
              then value
              else find other (f (if b then c.subtree else pick key cs last))))
          → ((find other (f (g (pick key cs last)))
                ≡ (if eq_bytes key other then value else find other (f (pick key cs last))))
              → find other (flat_change cs last)
                ≡ (if eq_bytes key other then value else find other goes_on))
          → let (cs', last') = change g key cs last in
            let now : List (Child T) × T =
              if b then (record c { subtree = g c.subtree } ∷ cs, last) else (c ∷ cs', last') in
            find other (flatten_children f now.0 now.1)
            ≡ (if eq_bytes key other then value else find other (f c.subtree ++ goes_on))
      by_test true e new' others = ground (
        arith,
        new',
        find-append other (f (g c.subtree)) goes_on,
        find-append other (f c.subtree) goes_on,
        eq_of_compare_bytes key other,
        find-Lacks key goes_on (from-Lacks key c.key goes_on e above),
      )
      by_test false e new' others = ground (
        arith,
        others new',
        find-append other (f c.subtree) (flat_change cs last),
        find-append other (f c.subtree) goes_on,
        eq_of_compare_bytes key other,
        find-Lacks key (f c.subtree) (below-Lacks key c.key (f c.subtree) e below),
      )

module _ (key : List ℕ) (leaf' : LeafNode) where
  replace-Keeps :
      (h : ℕ) (t : Tree h)
      → Keeps key (descend h key t).entries leaf'.entries
      → Keeps key (flatten h t) (flatten h (replace h key leaf' t))
  unfolding replace descend flat_change
  replace-Keeps zero leaf k = k
  replace-Keeps (suc h) b k =
      change-Keeps (IsOrdered h) (flatten h) (replace h key leaf') key b.children b.last
        (replace-Keeps h (pick key b.children b.last) k)

  pub replace-IsOrdered :
      (h : ℕ) (t : Tree h)
      → Keeps key (descend h key t).entries leaf'.entries
      → IsSorted leaf'.entries
      → IsOrdered h t
      → IsOrdered h (replace h key leaf' t)
  unfolding replace descend
  replace-IsOrdered zero leaf k sorted o = sorted
  replace-IsOrdered (suc h) b k sorted o =
      change-AreOrdered (IsOrdered h) (flatten h) (replace h key leaf') key b.children b.last
        (replace-Keeps h (pick key b.children b.last) k)
        (λ below. replace-IsOrdered h (pick key b.children b.last) k sorted below) o

  -- What the new leaf holds at its key the new tree holds.
  pub replace-find :
      (h : ℕ) (t : Tree h) (other : List ℕ) (value : Option (List ℕ))
      → find other leaf'.entries
        ≡ (if eq_bytes key other then value else find other (descend h key t).entries)
      → IsOrdered h t
      → find other (flatten h (replace h key leaf' t))
        ≡ (if eq_bytes key other then value else find other (flatten h t))
  unfolding replace descend flat_change
  replace-find zero leaf other value e o = e
  replace-find (suc h) b other value e o =
      change-find (IsOrdered h) (flatten h) (replace h key leaf') key other value b.children b.last
        (replace-find h (pick key b.children b.last) other value e
          (pick-AreOrdered (IsOrdered h) (flatten h) key b.children b.last o))
        o
