-- ===== src/Mvcc/Serves.antt =====
-- A pager whose pages hold a catalog and a tree that the catalog names, and what a read transaction
-- reads there.
use mathlib.Core.Path.{subst}
use gemgraph.Base.{
  ℕ, ◌≤◌, ◌<◌, ◌^◌, ◌≡◌, ◌≢◌, refl, sym, ap, ◌∙◌, Bool, true, false, List, take, take-length_le,
  length, some, if◌then◌else◌, ◌==◌, Result, ok, err, and_then, and_then-ok, ◌>>=◌, lift, All,
  arith,
}
use gemgraph.Bytes.Le.{to_le_bytes, from_le_bytes, length-to_le_bytes, from_le_bytes-to_le_bytes}
use gemgraph.Pager.Store.{Pager}
use gemgraph.Pager.Store.Coherence.{IsCoherent}
use gemgraph.BTree.Leaf.Refinement.{find}
use gemgraph.BTree.Tree.{Call, open_root, get as tree_get}
use gemgraph.BTree.Tree.Model.{Tree, page_of, flatten, pages_of, OnDisk-IsPage, Holds}
use gemgraph.BTree.Tree.Reads.{Reads}
use gemgraph.BTree.Tree.Lookup.{get-finds}
use gemgraph.BTree.Tree.Update.{Stored}
use gemgraph.Mvcc.{MvccFailure, error, tree_not_found, PagerCall}
use gemgraph.Mvcc.Catalog.{with_tree, catalog_get, found_or, root_in_catalog}
use gemgraph.Mvcc.Database.{Database}
use gemgraph.Mvcc.ReadTxn.{read_txn, get}

-- The catalog below its root names the page of the tree, and the two share no page. The tree has no
-- page twice, the cache is coherent, and no fault of the device is to come.
pub record Serves (k : ℕ) (catalog : Tree k) (catalog_root tree_id : ℕ) (h : ℕ) (tree : Tree h)
    (p : Pager) : Type 0 where
  pub catalog_held : Holds k catalog (open_root p catalog_root)
  pub tree_stored : Stored h tree (open_root p (page_of h tree))
  pub named :
      find (to_le_bytes 4 tree_id) (flatten k catalog) ≡ some (to_le_bytes 4 (page_of h tree))
  pub apart : All (λ id. All (λ x. id ≢ x) (pages_of h tree)) (pages_of k catalog)

-- The result is `a`, the file is as it was and the cache is coherent.
pub record PagerReads {A : Type 0} (p : Pager) (a : A) (r : Result A MvccFailure × Pager)
    : Type 0 where
  pub result : r.0 ≡ ok a
  pub file : r.1.file ≡ p.file
  pub coherent : IsCoherent r.1

pub PagerReads-then :
    {A B : Type 0} (p : Pager) (a : A) (b : B) (r : Result A MvccFailure × Pager)
    (f : A → PagerCall B)
    → PagerReads p a r
    → ((p' : Pager) → p'.file ≡ p.file → IsCoherent p' → PagerReads p' b (f a p'))
    → PagerReads p b (and_then r f)
PagerReads-then p a b r f h k =
    let next = k r.1 h.file h.coherent in
    subst (λ x. PagerReads p b x) (sym (and_then-ok r f a h.result))
      (record { result = next.result; file = next.file ∙ h.file; coherent = next.coherent })

pub with_tree-PagerReads :
    {A : Type 0} (root : ℕ) (call : Call A) (p : Pager) (a : A)
    → Reads (open_root p root) a (call (open_root p root))
    → PagerReads p (a, root) (with_tree root call p)
unfolding open_root
with_tree-PagerReads root call p a reads = record {
  result = rw (reads.result, reads.root) refl;
  file = reads.file;
  coherent = reads.coherent;
}

-- Reads keep what is served.
pub Serves-same :
    (k : ℕ) (catalog : Tree k) (catalog_root tree_id h : ℕ) (tree : Tree h) (p p' : Pager)
    → p'.file ≡ p.file
    → IsCoherent p'
    → Serves k catalog catalog_root tree_id h tree p
    → Serves k catalog catalog_root tree_id h tree p'
unfolding open_root
Serves-same k catalog catalog_root tree_id h tree p p' same c s = record {
  catalog_held = record {
    root = s.catalog_held.root;
    coherent = c;
    on_disk = rw same s.catalog_held.on_disk;
    ordered = s.catalog_held.ordered;
  };
  tree_stored = record {
    holds = record {
      root = refl;
      coherent = c;
      on_disk = rw same s.tree_stored.holds.on_disk;
      ordered = s.tree_stored.holds.ordered;
    };
    distinct = s.tree_stored.distinct;
    no_faults = rw same s.tree_stored.no_faults;
  };
  named = s.named;
  apart = s.apart;
}

id_of_bytes : (v : ℕ) → v < 2 ^ 32 → from_le_bytes (take 4 (to_le_bytes 4 v)) ≡ v
id_of_bytes v small =
    ap from_le_bytes (take-length_le 4 (to_le_bytes 4 v) (omega (arith, length-to_le_bytes 4 v)))
    ∙ from_le_bytes-to_le_bytes 4 v small

module _ (fuel k : ℕ) (catalog : Tree k) (catalog_root tree_id h : ℕ) (tree : Tree h)
    (enough : k < fuel) where
  abbrev pub IsServed : Pager → Type 0
  IsServed p = Serves k catalog catalog_root tree_id h tree p

  catalog_get-PagerReads :
      (p : Pager)
      → IsServed p
      → PagerReads p (some (page_of h tree)) (catalog_get fuel catalog_root tree_id p)
  unfolding catalog_get
  catalog_get-PagerReads p s =
      PagerReads-then p (some (to_le_bytes 4 (page_of h tree)), catalog_root)
        (some (page_of h tree)) _ _
        (with_tree-PagerReads catalog_root (tree_get fuel (to_le_bytes 4 tree_id)) p _ (
          rw (s.named) at (
            get-finds fuel k (to_le_bytes 4 tree_id) catalog (open_root p catalog_root) enough
              (omega (arith, length-to_le_bytes 4 tree_id)) s.catalog_held)))
        λ p' same c. record {
          result =
              ap (λ v. ok (some v))
                (id_of_bytes (page_of h tree)
                  (OnDisk-IsPage p.file.pages h tree s.tree_stored.holds.on_disk).1);
          file = refl;
          coherent = c;
        }

  pub root_in_catalog-PagerReads :
      (p : Pager)
      → IsServed p
      → PagerReads p (page_of h tree) (root_in_catalog fuel catalog_root tree_id p)
  unfolding root_in_catalog open_root
  root_in_catalog-PagerReads p s = by_test (catalog_root == 0) (
      has_catalog catalog_root
        (rw (s.catalog_held.root) (OnDisk-IsPage p.file.pages k catalog s.catalog_held.on_disk).0))
    where
      has_catalog : (root : ℕ) → 2 ≤ root → (root == 0) ≡ false
      has_catalog root two = ground arith

      by_test :
          (b : Bool)
          → b ≡ false
          → PagerReads p (page_of h tree) (
              (if b
                  then lift (err (error (tree_not_found tree_id)))
                  else catalog_get fuel catalog_root tree_id >>= λ root.
                      lift (found_or fuel tree_id root))
                p)
      by_test true e = cc
      by_test false e =
          PagerReads-then p (some (page_of h tree)) (page_of h tree) _ _
            (catalog_get-PagerReads p s)
            λ p' same c. record { result = refl; file = refl; coherent = c }

  -- A read transaction on a database whose pages hold a catalog and a tree that it names on disjoint
  -- pages, the tree without a page twice, on a device without faults to come and with a coherent cache,
  -- with fuel for the levels of both, returns what the tree holds at a key of at most 1,000 bytes, and
  -- all of this holds afterwards.
  pub get-Serves :
      (key : List ℕ) (db : Database)
      → h < fuel
      → length key ≤ 1000
      → db.current_root ≡ catalog_root
      → Serves k catalog catalog_root tree_id h tree db.pager
      → ((get fuel (read_txn db) tree_id key db).0 ≡ ok (find key (flatten h tree)))
        × Serves k catalog catalog_root tree_id h tree
            (get fuel (read_txn db) tree_id key db).1.pager
  unfolding get read_txn
  get-Serves key db enough' short root s =
      let value = find key (flatten h tree) in
      let reads : PagerReads db.pager value
          (and_then (root_in_catalog fuel db.current_root tree_id db.pager) _) =
        PagerReads-then db.pager (page_of h tree) value
          (root_in_catalog fuel db.current_root tree_id db.pager) _
          (rw root (root_in_catalog-PagerReads db.pager s))
          λ p1 same c.
            let s1 = Serves-same k catalog catalog_root tree_id h tree db.pager p1 same c s in
            PagerReads-then p1 (value, page_of h tree) value _ _
              (with_tree-PagerReads (page_of h tree) (tree_get fuel key) p1 value (
                get-finds fuel h key tree (open_root p1 (page_of h tree)) enough' short
                  s1.tree_stored.holds))
              λ p2 same2 c2. record { result = refl; file = refl; coherent = c2 } in
      (
        reads.result,
        Serves-same k catalog catalog_root tree_id h tree db.pager _ reads.file reads.coherent s,
      )
