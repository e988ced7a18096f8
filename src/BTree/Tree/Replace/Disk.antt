-- ===== src/BTree/Tree/Replace/Disk.antt =====
-- A tree with a replaced leaf is on disk when the leaf's page has been written.
use mathlib.Core.Path.{subst}
use gemgraph.Base.{
  ℕ, zero, suc, ◌≡◌, ◌≢◌, refl, sym, ap, Bool, true, false, List, [], ◌∷◌, ◌++◌, some, get_elem?,
  if◌then◌else◌, All,
}
use gemgraph.Bytes.Order.{lt_bytes}
use gemgraph.Pager.Disk.{put, get_elem?-put_self, get_elem?-put_ne}
use gemgraph.BTree.Leaf.{LeafNode}
use gemgraph.BTree.Leaf.Page.{to_page as leaf_to_page}
use gemgraph.BTree.Internal.Page.{to_page as branch_to_page}
use gemgraph.BTree.Internal.Page.RoundTrip.{Fits}
use gemgraph.BTree.Tree.Model.{
  Child, Branch, Tree, page_of, entries_of, node_of, LeafFits, OnDisk, pick, descend,
  pages_of_children, pages_of, IsDistinct,
}
use gemgraph.BTree.Tree.Replace.{
  change, replace, pick-pages, descend-pages, IsDistinct-append_left, IsDistinct-append_right,
  IsDistinct-append_across, from_across, put-children, OnDisk-put,
}

module _ (key : List ℕ) (leaf' : LeafNode) where
  -- The new leaf stands on the page of the old one.
  abbrev pub IsInPlace : (h : ℕ) → Tree h → Type 0
  IsInPlace h t = leaf'.page_id ≡ (descend h key t).page_id

  pub page_of-replace :
      (h : ℕ) (t : Tree h) → IsInPlace h t → page_of h (replace h key leaf' t) ≡ page_of h t
  unfolding replace descend
  page_of-replace zero leaf e = e
  page_of-replace (suc h) b e = refl

  entries_of-change :
      (h : ℕ) (g : Tree h → Tree h) (cs : List (Child (Tree h))) (last : Tree h)
      → page_of h (g (pick key cs last)) ≡ page_of h (pick key cs last)
      → (entries_of h (change g key cs last).0 ≡ entries_of h cs)
        × (page_of h (change g key cs last).1 ≡ page_of h last)
  unfolding change pick
  entries_of-change h g [] last e = (refl, e)
  entries_of-change h g (c ∷ cs) last e =
      by_test (lt_bytes key c.key) e (entries_of-change h g cs last)
    where
      by_test :
          (b : Bool)
          → page_of h (g (if b then c.subtree else pick key cs last))
            ≡ page_of h (if b then c.subtree else pick key cs last)
          → (page_of h (g (pick key cs last)) ≡ page_of h (pick key cs last)
              → (entries_of h (change g key cs last).0 ≡ entries_of h cs)
                × (page_of h (change g key cs last).1 ≡ page_of h last))
          → let (cs', last') = change g key cs last in
            let new : List (Child (Tree h)) × Tree h =
              if b then (record c { subtree = g c.subtree } ∷ cs, last) else (c ∷ cs', last') in
            (entries_of h new.0 ≡ entries_of h (c ∷ cs)) × (page_of h new.1 ≡ page_of h last)
      by_test true same rest = (rw same refl, refl)
      by_test false same rest = (rw ((rest same).0) refl, (rest same).1)

  pages_of-change :
      (h : ℕ) (g : Tree h → Tree h) (cs : List (Child (Tree h))) (last : Tree h)
      → pages_of h (g (pick key cs last)) ≡ pages_of h (pick key cs last)
      → pages_of_children (pages_of h) (change g key cs last).0 (change g key cs last).1
        ≡ pages_of_children (pages_of h) cs last
  unfolding change pick
  pages_of-change h g [] last e = e
  pages_of-change h g (c ∷ cs) last e = by_test (lt_bytes key c.key) e (pages_of-change h g cs last)
    where
      by_test :
          (b : Bool)
          → pages_of h (g (if b then c.subtree else pick key cs last))
            ≡ pages_of h (if b then c.subtree else pick key cs last)
          → (pages_of h (g (pick key cs last)) ≡ pages_of h (pick key cs last)
              → pages_of_children (pages_of h) (change g key cs last).0 (change g key cs last).1
                ≡ pages_of_children (pages_of h) cs last)
          → let (cs', last') = change g key cs last in
            let new : List (Child (Tree h)) × Tree h =
              if b then (record c { subtree = g c.subtree } ∷ cs, last) else (c ∷ cs', last') in
            pages_of_children (pages_of h) new.0 new.1
            ≡ pages_of h c.subtree ++ pages_of_children (pages_of h) cs last
      by_test true same rest = ap (λ (l : List ℕ). l ++ pages_of_children (pages_of h) cs last) same
      by_test false same rest = ap (λ (l : List ℕ). pages_of h c.subtree ++ l) (rest same)

  -- The tree takes the pages that it took.
  pub pages_of-replace :
      (h : ℕ) (t : Tree h) → IsInPlace h t → pages_of h (replace h key leaf' t) ≡ pages_of h t
  unfolding replace descend
  pages_of-replace zero leaf e = ap (λ (id : ℕ). id ∷ []) e
  pages_of-replace (suc h) b e =
      ap (λ (l : List ℕ). b.page_id ∷ l)
        (pages_of-change h (replace h key leaf') b.children b.last
          (pages_of-replace h (pick key b.children b.last) e))

  -- The page of a branch above the leaf stays as it is.
  node_of-replace :
      (h : ℕ) (b : Branch (Tree h))
      → IsInPlace (suc h) b
      → node_of h (replace (suc h) key leaf' b) ≡ node_of h b
  unfolding replace descend
  node_of-replace h b e =
      let (entries, right) =
        entries_of-change h (replace h key leaf') b.children b.last
          (page_of-replace h (pick key b.children b.last) e) in
      rw (entries, right) refl

  module _ (pages : List (List ℕ)) (fits : LeafFits leaf') where
    abbrev pages' : List (List ℕ)
    pages' = put leaf'.page_id (leaf_to_page leaf') pages

    change-OnDisk :
        (h : ℕ) (g : Tree h → Tree h) (cs : List (Child (Tree h))) (last : Tree h)
        → IsDistinct (pages_of_children (pages_of h) cs last)
        → All (λ c. OnDisk pages h c.subtree) cs
        → OnDisk pages h last
        → ((P : ℕ → Type 0) → All P (pages_of h (pick key cs last)) → P leaf'.page_id)
        → (OnDisk pages h (pick key cs last)
            → IsDistinct (pages_of h (pick key cs last))
            → OnDisk pages' h (g (pick key cs last)))
        → All (λ c. OnDisk pages' h c.subtree) (change g key cs last).0
          × OnDisk pages' h (change g key cs last).1
    unfolding change pick
    change-OnDisk h g [] last distinct d k at_id new = (tt, new k distinct)
    change-OnDisk h g (c ∷ cs) last distinct d k at_id new =
        by_test (lt_bytes key c.key) at_id new (
          change-OnDisk h g cs last
            (IsDistinct-append_right (pages_of h c.subtree) (pages_of_children (pages_of h) cs last)
              distinct)
            d.1 k)
      where
        by_test :
            (b : Bool)
            → ((P : ℕ → Type 0)
                → All P (pages_of h (if b then c.subtree else pick key cs last))
                → P leaf'.page_id)
            → (OnDisk pages h (if b then c.subtree else pick key cs last)
                → IsDistinct (pages_of h (if b then c.subtree else pick key cs last))
                → OnDisk pages' h (g (if b then c.subtree else pick key cs last)))
            → (((P : ℕ → Type 0) → All P (pages_of h (pick key cs last)) → P leaf'.page_id)
                → (OnDisk pages h (pick key cs last)
                    → IsDistinct (pages_of h (pick key cs last))
                    → OnDisk pages' h (g (pick key cs last)))
                → All (λ c. OnDisk pages' h c.subtree) (change g key cs last).0
                  × OnDisk pages' h (change g key cs last).1)
            → let (cs', last') = change g key cs last in
              let now : List (Child (Tree h)) × Tree h =
                if b then (record c { subtree = g c.subtree } ∷ cs, last) else (c ∷ cs', last') in
              All (λ c. OnDisk pages' h c.subtree) now.0 × OnDisk pages' h now.1
        by_test true here made rest =
            let across =
              IsDistinct-append_across (pages_of h c.subtree)
                (pages_of_children (pages_of h) cs last) distinct in
            let (others, last_there) =
              put-children leaf'.page_id (leaf_to_page leaf') pages h cs last d.1 k
                (here (λ x. All (λ y. x ≢ y) (pages_of_children (pages_of h) cs last)) across) in
            (
              (
                made d.0 (
                    IsDistinct-append_left (pages_of h c.subtree)
                      (pages_of_children (pages_of h) cs last) distinct),
                others,
              ),
              last_there,
            )
        by_test false here made rest =
            let across =
              IsDistinct-append_across (pages_of h c.subtree)
                (pages_of_children (pages_of h) cs last) distinct in
            let (others, last_there) = rest here made in
            (
              (
                OnDisk-put leaf'.page_id (leaf_to_page leaf') pages h c.subtree d.0 (
                    from_across (pages_of h c.subtree) (pages_of_children (pages_of h) cs last)
                      leaf'.page_id (λ P a. here P (pick-pages P (pages_of h) key cs last a))
                      across),
                others,
              ),
              last_there,
            )

    pub OnDisk-replace :
        (h : ℕ) (t : Tree h)
        → IsInPlace h t
        → IsDistinct (pages_of h t)
        → OnDisk pages h t
        → OnDisk pages' h (replace h key leaf' t)
    unfolding descend replace
    OnDisk-replace zero leaf e distinct (p, old_fits, there) =
        (rw e p, fits, get_elem?-put_self leaf'.page_id (leaf_to_page leaf') pages)
    OnDisk-replace (suc h) b e distinct (p, b_fits, there, subtrees, last) =
        let at_id : (P : ℕ → Type 0)
            → All P (pages_of h (pick key b.children b.last))
            → P leaf'.page_id =
          λ P a. rw e (descend-pages P h key (pick key b.children b.last) a) in
        let (subtrees', last') =
          change-OnDisk h (replace h key leaf') b.children b.last distinct.1 subtrees last at_id
            (λ d distinct'. OnDisk-replace h (pick key b.children b.last) e distinct' d) in
        let same = node_of-replace h b e in
        let apart : b.page_id ≢ leaf'.page_id =
          at_id (λ x. b.page_id ≢ x)
            (pick-pages (λ x. b.page_id ≢ x) (pages_of h) key b.children b.last distinct.0) in
        (
          p,
          subst Fits (sym same) b_fits,
          subst (λ n. get_elem? pages' b.page_id ≡ some (branch_to_page n)) (sym same)
              (get_elem?-put_ne leaf'.page_id b.page_id (leaf_to_page leaf') _ pages
                (λ q. apart (sym q)) there),
          subtrees',
          last',
        )
