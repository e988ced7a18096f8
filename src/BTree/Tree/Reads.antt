-- ===== src/BTree/Tree/Reads.antt =====
-- What a call that only reads does to the state, and the reads of nodes.
use mathlib.Core.Path.{subst}
use gemgraph.Base.{
  ℕ, suc, ◌≤◌, ◌≡◌, refl, sym, ap, ◌∙◌, List, some, get_elem?, Result, ok, err, and_then, ◌>>=◌,
}
use gemgraph.Pager.Page.{read_page_header}
use gemgraph.Pager.Disk.{found, read_page_raw}
use gemgraph.Pager.Store.{read_page}
use gemgraph.Pager.Store.Coherence.{IsCoherent, read_page_lem}
use gemgraph.BTree.Leaf.{LeafNode}
use gemgraph.BTree.Leaf.Page.{to_page as leaf_to_page, from_page as leaf_from_page}
use gemgraph.BTree.Leaf.Page.RoundTrip.{
  to_page-header as leaf_to_page-header, from_page-to_page_leaf,
}
use gemgraph.BTree.Internal.Page.{to_page as branch_to_page, from_page as branch_from_page}
use gemgraph.BTree.Internal.Page.RoundTrip.{from_page-to_page_branch}
use gemgraph.BTree.Tree.{BTree, Failure, Call, from_pager, on_pager, by_type}
use gemgraph.BTree.Tree.Model.{Tree, Branch, node_of, OnDisk, OnDisk-IsPage, OnDisk-HasPageId}

-- The result is `a`, the file and the root are as they were, and the cache is coherent.
pub record Reads {A : Type 0} (t : BTree) (a : A) (r : Result A Failure × BTree) : Type 0 where
  pub result : r.0 ≡ ok a
  pub file : r.1.pager.file ≡ t.pager.file
  pub root : r.1.root ≡ t.root
  pub coherent : IsCoherent r.1.pager

module _ {A B : Type 0} (t : BTree) (a : A) (b : B) where
  -- A call behind one that only reads.
  pub and_then-Reads :
      (r : Result A Failure × BTree) (f : A → Call B)
      → Reads t a r
      → ((t' : BTree) → t'.pager.file ≡ t.pager.file → IsCoherent t'.pager → Reads t' b (f a t'))
      → Reads t b (and_then r f)
  and_then-Reads (err e, s) f h k = cc (h.result)
  and_then-Reads (ok x, s) f h k =
      let next = k s h.file h.coherent in
      record {
        result = ap (λ (y : A). (f y s).0) x-eq ∙ next.result;
        file = ap (λ (y : A). (f y s).1.pager.file) x-eq ∙ next.file ∙ h.file;
        root = ap (λ (y : A). (f y s).1.root) x-eq ∙ next.root ∙ h.root;
        coherent = subst (λ (y : A). IsCoherent (f y s).1.pager) (sym x-eq) next.coherent;
      }
    where
      x-eq : x ≡ a
      x-eq = cc (h.result)

pub pure-Reads : {A : Type 0} (t : BTree) (a : A) → IsCoherent t.pager → Reads t a (ok a, t)
pure-Reads t a c = record { result = refl; file = refl; root = refl; coherent = c }

pub lift-Reads :
    {A : Type 0} (t : BTree) (a : A) (r : Result A Failure)
    → r ≡ ok a
    → IsCoherent t.pager
    → Reads t a (r, t)
lift-Reads t a r e c = record { result = e; file = refl; root = refl; coherent = c }

-- The read of a page that is in the file.
pub read_page-Reads :
    (id : ℕ) (page : List ℕ) (t : BTree)
    → 2 ≤ id
    → IsCoherent t.pager
    → get_elem? t.pager.file.pages id ≡ some page
    → Reads t page (on_pager (read_page id) t)
unfolding read_page_raw
read_page-Reads id page t two c there =
    let (result, file, after) = read_page_lem id t.pager two c in
    record {
      result = ap from_pager (result ∙ ap found there);
      file = file;
      root = refl;
      coherent = after;
    }

module _ {A : Type 0} (a : A) where
  -- The read of a leaf's page, with what is done on a leaf.
  pub read_leaf-Reads :
      (leaf : LeafNode) (t : BTree) (on_leaf on_internal : List ℕ → Call A)
      → IsCoherent t.pager
      → OnDisk t.pager.file.pages 0 leaf
      → ((t' : BTree)
          → t'.pager.file ≡ t.pager.file
          → IsCoherent t'.pager
          → leaf_from_page (leaf_to_page leaf) ≡ ok leaf
          → Reads t' a (on_leaf (leaf_to_page leaf) t'))
      → Reads t a (
          (on_pager (read_page leaf.page_id) >>= λ buf.
          by_type (read_page_header buf).0 (on_leaf buf) (on_internal buf))
            t)
  read_leaf-Reads leaf t on_leaf on_internal c (id, fits, there) k =
      and_then-Reads t (leaf_to_page leaf) a (on_pager (read_page leaf.page_id) t) _
        (read_page-Reads leaf.page_id (leaf_to_page leaf) t id.0 c there)
        (λ t' file c'.
          rw (leaf_to_page-header leaf fits id.1)
            (k t' file c' (from_page-to_page_leaf leaf fits id.1)))

  -- The read of a branch's page, with what is done on an internal node.
  pub read_branch-Reads :
      (h : ℕ) (b : Branch (Tree h)) (t : BTree) (on_leaf on_internal : List ℕ → Call A)
      → IsCoherent t.pager
      → OnDisk t.pager.file.pages (suc h) b
      → ((t' : BTree)
          → t'.pager.file ≡ t.pager.file
          → IsCoherent t'.pager
          → branch_from_page (branch_to_page (node_of h b)) ≡ ok (node_of h b)
          → Reads t' a (on_internal (branch_to_page (node_of h b)) t'))
      → Reads t a (
          (on_pager (read_page b.page_id) >>= λ buf.
          by_type (read_page_header buf).0 (on_leaf buf) (on_internal buf))
            t)
  read_branch-Reads h b t on_leaf on_internal c (id, fits, there, subtrees, last) k =
      let (back, header) =
        from_page-to_page_branch (node_of h b) fits id.1
          (OnDisk-IsPage t.pager.file.pages h b.last last).1
          (OnDisk-HasPageId t.pager.file.pages h b.children subtrees) in
      and_then-Reads t (branch_to_page (node_of h b)) a (on_pager (read_page b.page_id) t) _
        (read_page-Reads b.page_id (branch_to_page (node_of h b)) t id.0 c there)
        (λ t' file c'. rw header (k t' file c' back))
