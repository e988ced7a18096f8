-- ===== src/BTree/Tree/Scan.antt =====
-- A range scan of a tree on disk against the entries of its leaves.
use gemgraph.Base.{
  ℕ, zero, suc, ◌<◌, ◌≡◌, refl, sym, ap, ◌∙◌, Bool, true, false, ◌&&◌, List, [], ◌∷◌, ◌++◌,
  if◌then◌else◌, All, ok, pure, arith,
}
use mathlib.Core.Path.{subst}
use mathlib.Core.List.{append-nil, append_assoc}
use gemgraph.Bytes.Order.{le_bytes, lt_bytes, eq_of_compare_bytes, lt_trans}
use gemgraph.Pager.Store.Coherence.{IsCoherent}
use gemgraph.BTree.Leaf.{LeafEntry}
use gemgraph.BTree.Tree.{BTree, Call, checked, push_range, visit, collect_range, range}
use gemgraph.BTree.Tree.Model.{
  Child, Tree, page_of, entries_of, node_of, flatten_children, flatten, IsBelow, IsFrom, AreOrdered,
  IsOrdered, OnDisk, Holds,
}
use gemgraph.BTree.Tree.Reads.{
  Reads, and_then-Reads, pure-Reads, lift-Reads, read_leaf-Reads, read_branch-Reads,
}

module _ (start end : List ℕ) where
  abbrev is_within : LeafEntry → Bool
  is_within e = le_bytes start e.key && le_bytes e.key end

  -- The pairs of the entries from `start` to `end`, both included.
  unfoldable pub within : List LeafEntry → List (List ℕ × List ℕ)
  within [] = []
  within (e ∷ es) = let rest = within es in if is_within e then (e.key, e.value) ∷ rest else rest

  within-append : (xs ys : List LeafEntry) → within (xs ++ ys) ≡ within xs ++ within ys
  unfolding within
  within-append [] ys = refl
  within-append (x ∷ xs) ys = ground (arith, within-append xs ys)

  push_range-within :
      (es : List LeafEntry) (results : List (List ℕ × List ℕ))
      → push_range start end es results ≡ results ++ within es
  unfolding push_range within
  push_range-within [] results = sym (append-nil results)
  push_range-within (e ∷ es) results =
      by_test (is_within e) (push_range-within es (results ++ (e.key, e.value) ∷ []))
        (push_range-within es results)
    where
      by_test :
          (b : Bool)
          → push_range start end es (results ++ (e.key, e.value) ∷ [])
            ≡ (results ++ (e.key, e.value) ∷ []) ++ within es
          → push_range start end es results ≡ results ++ within es
          → push_range start end es (if b then results ++ (e.key, e.value) ∷ [] else results)
            ≡ results ++ (if b then (e.key, e.value) ∷ within es else within es)
      by_test true pushed skipped =
          pushed ∙ append_assoc results ((e.key, e.value) ∷ []) (within es)
      by_test false pushed skipped = skipped

  -- No key below a separator is in a range that starts at the separator or above.
  within-below :
      (sep : List ℕ) (es : List LeafEntry)
      → lt_bytes start sep ≡ false
      → All (IsBelow sep) es
      → within es ≡ []
  unfolding within
  within-below sep [] h k = refl
  within-below sep (e ∷ es) h k = ground (
    arith,
    k.0,
    within-below sep es h k.1,
    eq_of_compare_bytes start e.key,
    lt_trans start e.key sep,
  )

  -- No key that is not below a separator is in a range that ends below it.
  within-above :
      (sep : List ℕ) (es : List LeafEntry)
      → lt_bytes end sep ≡ true
      → All (IsFrom sep) es
      → within es ≡ []
  unfolding within
  within-above sep [] h k = refl
  within-above sep (e ∷ es) h k =
      ground (
        arith,
        k.0,
        within-above sep es h k.1,
        eq_of_compare_bytes e.key end,
        lt_trans e.key end sep,
      )

module _ (start end : List ℕ) (h : ℕ)
    (collect : ℕ → List (List ℕ × List ℕ) → Call (List (List ℕ × List ℕ)))
    (collects : (tree : Tree h) (results : List (List ℕ × List ℕ)) (t : BTree)
      → IsCoherent t.pager
      → OnDisk t.pager.file.pages h tree
      → IsOrdered h tree
      → Reads t
          (results ++ within start end (flatten h tree))
          (collect (page_of h tree) results t)) where
  -- The first step of a round: the child is visited unless all its keys are below the range.
  child-Reads :
      (c : Child (Tree h)) (results : List (List ℕ × List ℕ)) (t : BTree)
      → IsCoherent t.pager
      → OnDisk t.pager.file.pages h c.subtree
      → IsOrdered h c.subtree
      → All (IsBelow c.key) (flatten h c.subtree)
      → (b : Bool) → lt_bytes start c.key ≡ b
      → Reads t
          (results ++ within start end (flatten h c.subtree))
          ((if b then collect (page_of h c.subtree) results else pure results) t)
  child-Reads c results t coherent d o below true e = collects c.subtree results t coherent d o
  child-Reads c results t coherent d o below false e =
      lift-Reads t _ (ok results)
        (ap ok (
          sym (
            ap (λ l. results ++ l) (within-below start end c.key (flatten h c.subtree) e below)
            ∙ append-nil results)))
        coherent

  visit-Reads :
      (cs : List (Child (Tree h))) (last : Tree h) (results : List (List ℕ × List ℕ)) (t : BTree)
      → IsCoherent t.pager
      → All (λ c. OnDisk t.pager.file.pages h c.subtree) cs
      → OnDisk t.pager.file.pages h last
      → AreOrdered (IsOrdered h) (flatten h) cs last
      → Reads t
          (results ++ within start end (flatten_children (flatten h) cs last))
          (visit collect start end (page_of h last) (entries_of h cs) results t)
  unfolding visit
  visit-Reads [] last results t coherent d k o = collects last results t coherent k o
  visit-Reads (c ∷ cs) last results t coherent d k (here, below, above, rest) =
      let mine = within start end (flatten h c.subtree) in
      let others = flatten_children (flatten h) cs last in
      and_then-Reads t (results ++ mine)
        (results ++ within start end (flatten h c.subtree ++ others)) _ _
        (child-Reads c results t coherent d.0 here below (lt_bytes start c.key) refl)
        λ t' same c'.
          by_test t' c' (lt_bytes end c.key) refl
            (visit-Reads cs last (results ++ mine) t' c' (rw same d.1) (rw same k) rest)
    where
      by_test :
          (t' : BTree)
          → IsCoherent t'.pager
          → (b : Bool) → lt_bytes end c.key ≡ b
          → Reads t'
              ((results ++ within start end (flatten h c.subtree))
                ++ within start end (flatten_children (flatten h) cs last))
              (visit collect start end
                (page_of h last)
                (entries_of h cs)
                (results ++ within start end (flatten h c.subtree))
                t')
          → Reads t'
              (results
                ++ within start end (flatten h c.subtree ++ flatten_children (flatten h) cs last))
              ((if b
                  then pure (results ++ within start end (flatten h c.subtree))
                  else visit collect start end
                      (page_of h last)
                      (entries_of h cs)
                      (results ++ within start end (flatten h c.subtree)))
                t')
      by_test t' c' true e others =
          rw
            (
              within-append start end (flatten h c.subtree) (flatten_children (flatten h) cs last),
              within-above start end c.key (flatten_children (flatten h) cs last) e above,
              append-nil (within start end (flatten h c.subtree)),
            )
            (pure-Reads t' _ c')
      by_test t' c' false e others =
          rw
            (
              within-append start end (flatten h c.subtree) (flatten_children (flatten h) cs last),
              sym (
                  append_assoc results (within start end (flatten h c.subtree))
                    (within start end (flatten_children (flatten h) cs last))),
            )
            others

collect_range-Reads :
    (fuel h : ℕ) (start end : List ℕ)
    → h < fuel
    → (tree : Tree h) (results : List (List ℕ × List ℕ)) (t : BTree) → IsCoherent t.pager
    → OnDisk t.pager.file.pages h tree
    → IsOrdered h tree
    → Reads t
        (results ++ within start end (flatten h tree))
        (collect_range fuel start end (page_of h tree) results t)
unfolding collect_range
collect_range-Reads zero h start end enough tree results t c d o = absurd (omega arith)
collect_range-Reads (suc fuel) zero start end enough leaf results t c d o =
    let all = results ++ within start end leaf.entries in
    read_leaf-Reads all leaf t _ _ c d λ t' same c' back.
      and_then-Reads t' leaf all _ _ (lift-Reads t' leaf _ (ap checked back) c') λ s same' c''.
        lift-Reads s all _ (ap ok (push_range-within start end leaf.entries results)) c''
collect_range-Reads (suc fuel) (suc h) start end enough b results t c d o =
    let all = results ++ within start end (flatten (suc h) b) in
    read_branch-Reads all h b t _ _ c d λ t' same c' back.
      and_then-Reads t' (node_of h b) all _ _ (lift-Reads t' (node_of h b) _ (ap checked back) c')
        λ s same' c''.
          visit-Reads start end h (collect_range fuel start end)
            (collect_range-Reads fuel h start end (omega arith)) b.children b.last results s c''
            (rw (same', same) d.3) (rw (same', same) d.4) o

-- A range scan with fuel for the levels of the tree returns the entries of the leaves whose keys are
-- from `start` to `end`, both included, in the order of the leaves, and changes neither the file nor
-- the root.
pub range-within :
    (fuel h : ℕ) (start end : List ℕ) (tree : Tree h) (t : BTree)
    → h < fuel
    → Holds h tree t
    → Reads t (within start end (flatten h tree)) (range fuel start end t)
unfolding range
range-within fuel h start end tree t enough held =
    subst
      (λ (id : ℕ).
        Reads t (within start end (flatten h tree)) (collect_range fuel start end id [] t))
      (sym held.root)
      (collect_range-Reads fuel h start end enough tree [] t held.coherent held.on_disk
        held.ordered)
