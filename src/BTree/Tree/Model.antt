-- ===== src/BTree/Tree/Model.antt =====
-- The tree that the pages of a `BTree` hold: all leaves at one height, the entries in the order of
-- the leaves, and what it is for the pages of a file to hold it.
use gemgraph.Base.{
  ℕ, zero, suc, ◌+◌, ◌*◌, ◌≤◌, ◌<◌, ◌^◌, ◌≡◌, ◌≢◌, refl, ap, ◌∙◌, Bool, true, false, List, [], ◌∷◌,
  ◌++◌, some, length, if◌then◌else◌, get_elem?, All,
}
use gemgraph.Bytes.Order.{◌≺◌, lt_bytes}
use gemgraph.Pager.Store.Coherence.{IsCoherent}
use gemgraph.BTree.Tree.{BTree}
use gemgraph.BTree.Leaf.{LeafEntry, LeafNode, used}
use gemgraph.BTree.Leaf.Page.{to_page as leaf_to_page}
use gemgraph.BTree.Leaf.Sorted.{IsSorted}
use gemgraph.BTree.Internal.{InternalEntry, InternalNode, find_child}
use gemgraph.BTree.Internal.Insert.{child_of, find_child_loop_lem}
use gemgraph.BTree.Internal.Page.{to_page as branch_to_page}
use gemgraph.BTree.Internal.Page.Entries.{HasPageId}
use gemgraph.BTree.Internal.Page.RoundTrip.{Fits}

-- The subtree to the left of a separator.
pub record Child (T : Type 0) : Type 0 where
  pub subtree : T
  pub key : List ℕ

pub record Branch (T : Type 0) : Type 0 where
  pub page_id : ℕ
  pub children : List (Child T)
  pub last : T

abbrev pub Tree : ℕ → Type 0
Tree zero = LeafNode
Tree (suc h) = Branch (Tree h)

abbrev pub page_of : (h : ℕ) → Tree h → ℕ
page_of zero leaf = leaf.page_id
page_of (suc h) b = b.page_id

abbrev pub entry_of : (h : ℕ) → Child (Tree h) → InternalEntry
entry_of h c = record { key = c.key; child = page_of h c.subtree }

abbrev pub entries_of : (h : ℕ) → List (Child (Tree h)) → List InternalEntry
entries_of h [] = []
entries_of h (c ∷ cs) = entry_of h c ∷ entries_of h cs

-- The node on the page of a branch.
abbrev pub node_of : (h : ℕ) → Branch (Tree h) → InternalNode
node_of h b = record {
  page_id = b.page_id;
  entries = entries_of h b.children;
  right_child = page_of h b.last;
}

module _ {T : Type 0} (f : T → List LeafEntry) where
  abbrev pub flatten_children : List (Child T) → T → List LeafEntry
  flatten_children [] last = f last
  flatten_children (c ∷ cs) last = f c.subtree ++ flatten_children cs last

-- The entries of the leaves from left to right.
abbrev pub flatten : (h : ℕ) → Tree h → List LeafEntry
flatten zero leaf = leaf.entries
flatten (suc h) b = flatten_children (flatten h) b.children b.last

abbrev pub IsBelow : List ℕ → LeafEntry → Type 0
IsBelow key e = e.key ≺ key

abbrev pub IsFrom : List ℕ → LeafEntry → Type 0
IsFrom key e = lt_bytes e.key key ≡ false

module _ {T : Type 0} (IsOrdered : T → Type 0) (f : T → List LeafEntry) where
  abbrev pub AreOrdered : List (Child T) → T → Type 0
  AreOrdered [] last = IsOrdered last
  AreOrdered (c ∷ cs) last =
      IsOrdered c.subtree
      × All (IsBelow c.key) (f c.subtree)
      × All (IsFrom c.key) (flatten_children f cs last)
      × AreOrdered cs last

-- Sorted leaves, and separators that are above all keys to their left and above none to their right.
abbrev pub IsOrdered : (h : ℕ) → Tree h → Type 0
IsOrdered zero leaf = IsSorted leaf.entries
IsOrdered (suc h) b = AreOrdered (IsOrdered h) (flatten h) b.children b.last

abbrev pub IsPage : ℕ → Type 0
IsPage id = (2 ≤ id) × (id < 2 ^ 32)

abbrev pub LeafFits : LeafNode → Type 0
LeafFits leaf = 9 + length leaf.entries * 6 + used leaf.entries ≤ 4096

module _ (pages : List (List ℕ)) where
  -- The page of every node is in the file.
  abbrev pub OnDisk : (h : ℕ) → Tree h → Type 0
  OnDisk zero leaf =
      IsPage leaf.page_id
      × LeafFits leaf
      × (get_elem? pages leaf.page_id ≡ some (leaf_to_page leaf))
  OnDisk (suc h) b =
      IsPage b.page_id
      × Fits (node_of h b)
      × (get_elem? pages b.page_id ≡ some (branch_to_page (node_of h b)))
      × All (λ c. OnDisk h c.subtree) b.children
      × OnDisk h b.last

  pub OnDisk-IsPage : (h : ℕ) (t : Tree h) → OnDisk h t → IsPage (page_of h t)
  OnDisk-IsPage zero leaf d = d.0
  OnDisk-IsPage (suc h) b d = d.0

  pub OnDisk-HasPageId :
      (h : ℕ) (cs : List (Child (Tree h)))
      → All (λ c. OnDisk h c.subtree) cs
      → All HasPageId (entries_of h cs)
  OnDisk-HasPageId h [] d = tt
  OnDisk-HasPageId h (c ∷ cs) d = ((OnDisk-IsPage h c.subtree d.0).1, OnDisk-HasPageId h cs d.1)

-- The subtree that a key goes to.
unfoldable pub pick : {T : Type 0} → List ℕ → List (Child T) → T → T
pick key [] last = last
pick key (c ∷ cs) last =
    let rest = pick key cs last in if lt_bytes key c.key then c.subtree else rest

-- The leaf that a key goes to.
unfoldable pub descend : (h : ℕ) → List ℕ → Tree h → LeafNode
unfolding pick
descend zero key leaf = leaf
descend (suc h) key b = descend h key (pick key b.children b.last)

child_of-entries_of :
    (h : ℕ) (key : List ℕ) (cs : List (Child (Tree h))) (last : Tree h)
    → child_of key (page_of h last) (entries_of h cs) ≡ page_of h (pick key cs last)
unfolding child_of pick
child_of-entries_of h key [] last = refl
child_of-entries_of h key (c ∷ cs) last =
    by_test (lt_bytes key c.key) (child_of-entries_of h key cs last)
  where
    by_test :
        (b : Bool)
        → child_of key (page_of h last) (entries_of h cs) ≡ page_of h (pick key cs last)
        → (if b then page_of h c.subtree else child_of key (page_of h last) (entries_of h cs))
          ≡ page_of h (if b then c.subtree else pick key cs last)
    by_test true e = refl
    by_test false e = e

-- The page that `find_child` returns is that of the subtree.
pub find_child-node_of :
    (h : ℕ) (key : List ℕ) (b : Branch (Tree h))
    → (find_child key (node_of h b)).0 ≡ page_of h (pick key b.children b.last)
unfolding find_child
find_child-node_of h key b =
    ap (λ (p : ℕ × ℕ). p.0) (find_child_loop_lem key (page_of h b.last) (entries_of h b.children) 0)
    ∙ child_of-entries_of h key b.children b.last

pub pick-All :
    {T : Type 0} (P : T → Type 0) (key : List ℕ) (cs : List (Child T)) (last : T)
    → All (λ c. P c.subtree) cs
    → P last
    → P (pick key cs last)
unfolding pick
pick-All P key [] last h k = k
pick-All P key (c ∷ cs) last h k = by_test (lt_bytes key c.key) (pick-All P key cs last h.1 k)
  where
    by_test : (b : Bool) → P (pick key cs last) → P (if b then c.subtree else pick key cs last)
    by_test true rest = h.0
    by_test false rest = rest

-- A tree that the pages of the pager hold below the root, with its keys in order.
pub record Holds (h : ℕ) (tree : Tree h) (t : BTree) : Type 0 where
  pub root : t.root ≡ page_of h tree
  pub coherent : IsCoherent t.pager
  pub on_disk : OnDisk t.pager.file.pages h tree
  pub ordered : IsOrdered h tree

module _ {T : Type 0} (f : T → List ℕ) where
  abbrev pub pages_of_children : List (Child T) → T → List ℕ
  pages_of_children [] last = f last
  pages_of_children (c ∷ cs) last = f c.subtree ++ pages_of_children cs last

-- The pages that a tree takes.
abbrev pub pages_of : (h : ℕ) → Tree h → List ℕ
pages_of zero leaf = leaf.page_id ∷ []
pages_of (suc h) b = b.page_id ∷ pages_of_children (pages_of h) b.children b.last

abbrev pub IsDistinct : List ℕ → Type 0
IsDistinct [] = Unit {0}
IsDistinct (x ∷ xs) = All (λ y. x ≢ y) xs × IsDistinct xs
