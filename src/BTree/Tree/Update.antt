-- ===== src/BTree/Tree/Update.antt =====
-- Insertions and deletions in a tree on disk that change one leaf.
pub mod Entries
pub mod Insert
pub mod Delete
use mathlib.Core.Path.{subst}
use gemgraph.Base.{
  All, get_elem?, some, ◌≢◌, ℕ, zero, suc, ◌≡◌, refl, sym, ap, ◌∙◌, List, [], ◌∷◌, ◌++◌, Option,
  if◌then◌else◌, Result, ok, err, and_then,
}
use gemgraph.Bytes.Order.{eq_bytes}
use gemgraph.Pager.Disk.{put, get_elem?-put_ne}
use gemgraph.Pager.Store.{Pager, write_page}
use gemgraph.Pager.Store.Coherence.{IsCoherent, write_page_lem, write_page-ok}
use gemgraph.BTree.Leaf.{LeafNode}
use gemgraph.BTree.Leaf.Page.{to_page as leaf_to_page}
use gemgraph.BTree.Leaf.Sorted.{IsSorted}
use gemgraph.BTree.Leaf.Refinement.{find}
use gemgraph.BTree.Tree.{BTree, Failure, Call, from_pager, on_pager}
use gemgraph.BTree.Tree.Reads.{Reads}
use gemgraph.BTree.Tree.Model.{
  Tree, page_of, flatten, LeafFits, IsOrdered, OnDisk, Holds, pages_of, IsDistinct, descend, pick,
  pick-All,
}
use gemgraph.BTree.Tree.Replace.{replace, descend-pages}
use gemgraph.BTree.Tree.Replace.Disk.{IsInPlace, page_of-replace, pages_of-replace, OnDisk-replace}
use gemgraph.BTree.Tree.Replace.Keys.{Keeps, replace-IsOrdered, replace-find}

-- A tree that is on disk below the root, takes each page once, and is stored on a device on which no
-- write fails.
pub record Stored (h : ℕ) (tree : Tree h) (t : BTree) : Type 0 where
  pub holds : Holds h tree t
  pub distinct : IsDistinct (pages_of h tree)
  pub no_faults : t.pager.file.faults ≡ []

-- The pages that are not the tree's are as they were.
abbrev pub Frame : (h : ℕ) → Tree h → BTree → BTree → Type 0
Frame h tree t t' =
    (id : ℕ) (page : List ℕ)
    → All (λ x. id ≢ x) (pages_of h tree)
    → get_elem? t.pager.file.pages id ≡ some page
    → get_elem? t'.pager.file.pages id ≡ some page

-- The result is `a`, and the tree holds `value` at the key and at every other key what it held.
pub record Binds {A : Type 0} (h : ℕ) (tree : Tree h) (t : BTree) (key : List ℕ)
    (value : Option (List ℕ)) (a : A) (r : Result A Failure × BTree) : Type 0 where
  pub result : r.0 ≡ ok a
  pub tree' : Tree h
  pub stored : Stored h tree' r.1
  pub same_pages : pages_of h tree' ≡ pages_of h tree
  pub frame : Frame h tree t r.1
  pub finds :
      (other : List ℕ)
      → find other (flatten h tree')
        ≡ (if eq_bytes key other then value else find other (flatten h tree))

-- A leaf's page is written, with the same keys and sizes in bounds.
pub write_leaf-Stored :
    (h : ℕ) (key : List ℕ) (leaf' : LeafNode) (tree : Tree h) (t : BTree)
    → Stored h tree t
    → IsInPlace key leaf' h tree
    → LeafFits leaf'
    → IsSorted leaf'.entries
    → Keeps key (descend h key tree).entries leaf'.entries
    → let r = on_pager (write_page leaf'.page_id (leaf_to_page leaf')) t in
      (r.0 ≡ ok tt) × Stored h (replace h key leaf' tree) r.1 × Frame h tree t r.1
write_leaf-Stored h key leaf' tree t s e fits sorted keeps =
    let (done, faults) = write_page-ok leaf'.page_id (leaf_to_page leaf') t.pager s.no_faults in
    let (pages, coherent) =
      write_page_lem leaf'.page_id (leaf_to_page leaf') t.pager s.holds.coherent done in
    (
      ap from_pager done,
      record {
        holds = record {
          root = s.holds.root ∙ sym (page_of-replace key leaf' h tree e);
          coherent = coherent;
          on_disk =
              subst (λ (ps : List (List ℕ)). OnDisk ps h (replace h key leaf' tree)) (sym pages)
                (OnDisk-replace key leaf' t.pager.file.pages fits h tree e s.distinct
                  s.holds.on_disk);
          ordered = replace-IsOrdered key leaf' h tree keeps sorted s.holds.ordered;
        };
        distinct = subst IsDistinct (sym (pages_of-replace key leaf' h tree e)) s.distinct;
        no_faults = faults;
      },
      λ id page apart there.
          subst (λ (ps : List (List ℕ)). get_elem? ps id ≡ some page) (sym pages)
            (get_elem?-put_ne leaf'.page_id id (leaf_to_page leaf') page t.pager.file.pages
              (λ q. descend-pages (λ x. id ≢ x) h key tree apart (sym q ∙ e)) there),
    )

pub Stored-Reads :
    {A : Type 0} (h : ℕ) (tree : Tree h) (t : BTree) (a : A) (r : Result A Failure × BTree)
    → Stored h tree t
    → Reads t a r
    → Stored h tree r.1
Stored-Reads h tree t a r s reads = record {
  holds = record {
    root = reads.root ∙ s.holds.root;
    coherent = reads.coherent;
    on_disk = rw (reads.file) s.holds.on_disk;
    ordered = s.holds.ordered;
  };
  distinct = s.distinct;
  no_faults = rw (reads.file) s.no_faults;
}

-- A change behind a call that only reads.
module _ {A B : Type 0} (h : ℕ) (tree : Tree h) (key : List ℕ) {value : Option (List ℕ)} (t : BTree)
    {b : B} where
  pub and_then-Binds :
      (a : A) (r : Result A Failure × BTree) (f : A → Call B)
      → Stored h tree t
      → Reads t a r
      → ((t' : BTree) → Stored h tree t' → Binds h tree t' key value b (f a t'))
      → Binds h tree t key value b (and_then r f)
  and_then-Binds a (err e, u) f s reads k = cc (reads.result)
  and_then-Binds a (ok x, u) f s reads k =
      let same : x ≡ a = cc (reads.result) in
      let changed = k u (Stored-Reads h tree t a (ok x, u) s reads) in
      subst (λ (y : A). Binds h tree t key value b (f y u)) (sym same)
        (record {
          result = changed.result;
          tree' = changed.tree';
          stored = changed.stored;
          same_pages = changed.same_pages;
          frame = λ id page apart there. changed.frame id page apart (rw (reads.file) there);
          finds = changed.finds;
        })

pub descend-OnDisk :
    (pages : List (List ℕ)) (h : ℕ) (key : List ℕ) (t : Tree h)
    → OnDisk pages h t
    → OnDisk pages 0 (descend h key t)
unfolding descend
descend-OnDisk pages zero key leaf d = d
descend-OnDisk pages (suc h) key b d =
    descend-OnDisk pages h key (pick key b.children b.last)
      (pick-All (OnDisk pages h) key b.children b.last d.3 d.4)
