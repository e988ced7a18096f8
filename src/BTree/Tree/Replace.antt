-- ===== src/BTree/Tree/Replace.antt =====
-- A tree in which the leaf that a key goes to is replaced: its pages, its order and its entries.
pub mod Disk
pub mod Keys
use gemgraph.Base.{
  ℕ, zero, suc, ◌≡◌, ◌≢◌, refl, sym, ap, ◌∙◌, Bool, true, false, List, [], ◌∷◌, ◌++◌, Option, none,
  some, get_elem?, if◌then◌else◌, All, All-append, All-append_left, All-append_right, arith,
}
use gemgraph.Bytes.Order.{lt_bytes, eq_bytes, eq_of_compare_bytes}
use gemgraph.Pager.Disk.{put, get_elem?-put_self, get_elem?-put_ne}
use gemgraph.BTree.Leaf.{LeafEntry, LeafNode}
use gemgraph.BTree.Leaf.Page.{to_page as leaf_to_page}
use gemgraph.BTree.Leaf.Sorted.{IsSorted}
use gemgraph.BTree.Leaf.Refinement.{find}
use gemgraph.BTree.Tree.Model.{
  Child, Branch, Tree, page_of, entries_of, node_of, flatten_children, flatten, IsBelow, IsFrom,
  AreOrdered, IsOrdered, LeafFits, OnDisk, pick, descend, pages_of_children, pages_of, IsDistinct,
}
use gemgraph.BTree.Tree.Order.{Lacks, find-append_left, find-append_right}

module _ {T : Type 0} (g : T → T) where
  -- The subtree that a key goes to, changed by `g`.
  unfoldable pub change : List ℕ → List (Child T) → T → List (Child T) × T
  change key [] last = ([], g last)
  change key (c ∷ cs) last =
      let (cs', last') = change key cs last in
      if lt_bytes key c.key
      then (record c { subtree = g c.subtree } ∷ cs, last)
      else (c ∷ cs', last')

unfoldable pub replace : (h : ℕ) → List ℕ → LeafNode → Tree h → Tree h
unfolding change
replace zero key leaf' leaf = leaf'
replace (suc h) key leaf' b =
    let (children, last) = change (replace h key leaf') key b.children b.last in
    record b { children = children; last = last }

-- What holds of the pages of a tree holds of the page of the leaf.
module _ (P : ℕ → Type 0) where
  pub pick-pages :
      {T : Type 0} (f : T → List ℕ) (key : List ℕ) (cs : List (Child T)) (last : T)
      → All P (pages_of_children f cs last)
      → All P (f (pick key cs last))
  unfolding pick
  pick-pages f key [] last h = h
  pick-pages f key (c ∷ cs) last h =
      by_test (lt_bytes key c.key) (
        pick-pages f key cs last (All-append_right P (f c.subtree) (pages_of_children f cs last) h))
    where
      by_test :
          (b : Bool)
          → All P (f (pick key cs last))
          → All P (f (if b then c.subtree else pick key cs last))
      by_test true rest = All-append_left P (f c.subtree) (pages_of_children f cs last) h
      by_test false rest = rest

  pub descend-pages :
      (h : ℕ) (key : List ℕ) (t : Tree h) → All P (pages_of h t) → P (descend h key t).page_id
  unfolding descend
  descend-pages zero key leaf a = a.0
  descend-pages (suc h) key b a =
      descend-pages h key (pick key b.children b.last)
        (pick-pages (pages_of h) key b.children b.last a.1)

-- Lists of distinct pages, taken apart.
pub IsDistinct-append_left : (xs ys : List ℕ) → IsDistinct (xs ++ ys) → IsDistinct xs
IsDistinct-append_left [] ys d = tt
IsDistinct-append_left (x ∷ xs) ys d =
    (All-append_left (λ y. x ≢ y) xs ys d.0, IsDistinct-append_left xs ys d.1)

pub IsDistinct-append_right : (xs ys : List ℕ) → IsDistinct (xs ++ ys) → IsDistinct ys
IsDistinct-append_right [] ys d = d
IsDistinct-append_right (x ∷ xs) ys d = IsDistinct-append_right xs ys d.1

pub IsDistinct-append_across :
    (xs ys : List ℕ) → IsDistinct (xs ++ ys) → All (λ x. All (λ y. x ≢ y) ys) xs
IsDistinct-append_across [] ys d = tt
IsDistinct-append_across (x ∷ xs) ys d =
    (All-append_right (λ y. x ≢ y) xs ys d.0, IsDistinct-append_across xs ys d.1)

-- If each page of `xs` differs from all of `ys`, so it does from one of them.
pub from_across :
    (xs ys : List ℕ) (id : ℕ)
    → ((P : ℕ → Type 0) → All P ys → P id)
    → All (λ x. All (λ y. x ≢ y) ys) xs
    → All (λ x. id ≢ x) xs
from_across [] ys id at_id a = tt
from_across (x ∷ xs) ys id at_id a =
    (λ e. at_id (λ y. x ≢ y) a.0 (sym e), from_across xs ys id at_id a.1)

-- A tree stays on disk where its pages, all of which have `P`, stay as they are.
module _ (pages pages' : List (List ℕ)) (P : ℕ → Type 0)
    (keep : (id : ℕ) (page : List ℕ)
      → P id
      → get_elem? pages id ≡ some page
      → get_elem? pages' id ≡ some page) where
  pub children-keep :
      (h : ℕ) (cs : List (Child (Tree h))) (last : Tree h)
      → ((t : Tree h) → OnDisk pages h t → All P (pages_of h t) → OnDisk pages' h t)
      → All (λ c. OnDisk pages h c.subtree) cs
      → OnDisk pages h last
      → All P (pages_of_children (pages_of h) cs last)
      → All (λ c. OnDisk pages' h c.subtree) cs × OnDisk pages' h last
  children-keep h [] last each d k a = (tt, each last k a)
  children-keep h (c ∷ cs) last each d k a =
      let mine =
        All-append_left P (pages_of h c.subtree) (pages_of_children (pages_of h) cs last) a in
      let others =
        All-append_right P (pages_of h c.subtree) (pages_of_children (pages_of h) cs last) a in
      let rest = children-keep h cs last each d.1 k others in
      ((each c.subtree d.0 mine, rest.0), rest.1)

  pub OnDisk-keep :
      (h : ℕ) (t : Tree h) → OnDisk pages h t → All P (pages_of h t) → OnDisk pages' h t
  OnDisk-keep zero leaf (p, fits, there) a = (p, fits, keep leaf.page_id _ a.0 there)
  OnDisk-keep (suc h) b (p, fits, there, subtrees, last) a =
      let (subtrees', last') =
        children-keep h b.children b.last (OnDisk-keep h) subtrees last a.1 in
      (p, fits, keep b.page_id _ a.0 there, subtrees', last')

-- The write of a page that is not the tree's leaves it on disk.
module _ (id : ℕ) (page : List ℕ) (pages : List (List ℕ)) where
  pub OnDisk-put :
      (h : ℕ) (t : Tree h)
      → OnDisk pages h t
      → All (λ x. id ≢ x) (pages_of h t)
      → OnDisk (put id page pages) h t
  OnDisk-put =
      OnDisk-keep pages (put id page pages) (λ x. id ≢ x)
        (λ j other ne there. get_elem?-put_ne id j page other pages ne there)

  pub put-children :
      (h : ℕ) (cs : List (Child (Tree h))) (last : Tree h)
      → All (λ c. OnDisk pages h c.subtree) cs
      → OnDisk pages h last
      → All (λ x. id ≢ x) (pages_of_children (pages_of h) cs last)
      → All (λ c. OnDisk (put id page pages) h c.subtree) cs × OnDisk (put id page pages) h last
  put-children h cs last =
      children-keep pages (put id page pages) (λ x. id ≢ x)
        (λ j other ne there. get_elem?-put_ne id j page other pages ne there) h cs last
        (OnDisk-put h)
