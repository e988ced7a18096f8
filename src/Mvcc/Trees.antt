-- ===== src/Mvcc/Trees.antt =====
-- Several trees in one write transaction of crates/gemgraph-mvcc/src/txn.rs: what a call on one of them
-- leaves of the others.
use mathlib.Core.Path.{subst}
use gemgraph.Base.{
  ℕ, ◌≤◌, ◌<◌, ◌≡◌, ◌≢◌, refl, sym, ◌∙◌, List, [], ◌∷◌, length, Option, none, some, Result, ok,
  and_then, All, arith, ◌⊎◌,
}
use gemgraph.Base.Assoc.{lookup, insert as insert_root, lookup-insert}
use gemgraph.Pager.Store.{Pager}
use gemgraph.Pager.Store.Coherence.{IsCoherent}
use gemgraph.BTree.Leaf.{upsert}
use gemgraph.BTree.Leaf.Refinement.{find}
use gemgraph.BTree.Tree.{open_root, get as tree_get, insert as tree_insert}
use gemgraph.BTree.Tree.Model.{Tree, page_of, flatten, pages_of, LeafFits, descend}
use gemgraph.BTree.Tree.Replace.{OnDisk-keep}
use gemgraph.BTree.Tree.Lookup.{get-finds}
use gemgraph.Mvcc.{MvccFailure}
use gemgraph.Mvcc.Catalog.{with_tree}
use gemgraph.Mvcc.WriteTxn.{WriteTxn, on_pager, get, insert}
use gemgraph.Mvcc.Serves.{Serves, Serves-same, with_tree-PagerReads}
use gemgraph.Mvcc.InTxn.{with_pager, InTxn, resolve-Resolves, insert-Inserts}

-- The call returns `a`, and only the cache of the transaction may change.
pub record TxnReads {A : Type 0} (t : WriteTxn) (a : A) (r : Result A MvccFailure × WriteTxn)
    : Type 0 where
  pub pager' : Pager
  pub outcome : r ≡ (ok a, with_pager pager' t)
  pub same_file : pager'.file ≡ t.db.pager.file
  pub coherent : IsCoherent pager'

-- The trees share no page.
abbrev pub Apart : (h : ℕ) → Tree h → (h' : ℕ) → Tree h' → Type 0
Apart h tree h' other = All (λ id. All (λ x. id ≢ x) (pages_of h tree)) (pages_of h' other)

ne_all : (x : ℕ) (ys : List ℕ) → All (λ y. x ≢ y) ys → All (λ y. y ≢ x) ys
ne_all x [] h = tt
ne_all x (y ∷ ys) h = ((λ e. h.0 (sym e)), ne_all x ys h.1)

zip_all :
    (xs ys : List ℕ) (P : ℕ → ℕ → Type 0) (x : ℕ)
    → All (λ y. P y x) ys
    → All (λ y. All (λ z. P y z) xs) ys
    → All (λ y. All (λ z. P y z) (x ∷ xs)) ys
zip_all xs [] P x h k = tt
zip_all xs (y ∷ ys) P x h k = ((h.0, k.0), zip_all xs ys P x h.1 k.1)

nil_all : (ys : List ℕ) (P : ℕ → ℕ → Type 0) → All (λ y. All (λ z. P y z) []) ys
nil_all [] P = tt
nil_all (y ∷ ys) P = (tt, nil_all ys P)

swap_all :
    (xs ys : List ℕ) → All (λ id. All (λ x. id ≢ x) ys) xs → All (λ id. All (λ x. id ≢ x) xs) ys
swap_all [] ys h = nil_all ys (λ y z. y ≢ z)
swap_all (x ∷ xs) ys h = zip_all xs ys (λ y z. y ≢ z) x (ne_all x ys h.0) (swap_all xs ys h.1)

pub Apart-swap :
    (h : ℕ) (tree : Tree h) (h' : ℕ) (other : Tree h')
    → Apart h tree h' other
    → Apart h' other h tree
Apart-swap h tree h' other = swap_all (pages_of h' other) (pages_of h tree)

pub TxnReads-InTxn :
    {A : Type 0} (k : ℕ) (catalog : Tree k) (catalog_root tree_id h : ℕ) (tree : Tree h)
    (t : WriteTxn) (a : A) (r : Result A MvccFailure × WriteTxn)
    → TxnReads t a r
    → InTxn k catalog catalog_root tree_id h tree t
    → InTxn k catalog catalog_root tree_id h tree r.1
TxnReads-InTxn {A} k catalog catalog_root tree_id h tree t a r reads s =
    subst (λ (x : Result A MvccFailure × WriteTxn). InTxn k catalog catalog_root tree_id h tree x.1)
      (sym reads.outcome)
      (record {
        root = s.root;
        serves =
            Serves-same k catalog catalog_root tree_id h tree t.db.pager reads.pager'
              reads.same_file reads.coherent s.serves;
        remembered = s.remembered;
      })

module _ (fuel k : ℕ) (catalog : Tree k) (catalog_root tree_id h : ℕ) (tree : Tree h)
    (enough : k < fuel) where
  get_steps :
      (key : List ℕ) (value : Option (List ℕ)) (p : Pager) (t : WriteTxn)
      → let r = with_tree (page_of h tree) (tree_get fuel key) p in
        (r.0 ≡ ok (value, page_of h tree))
        → and_then
            (on_pager (with_tree (page_of h tree) (tree_get fuel key)) (with_pager p t))
            (λ (v, _) t'. (ok v, t'))
          ≡ (ok value, with_pager r.1 t)
  get_steps key value p t done = rw done refl

  pub get-TxnReads :
      (key : List ℕ) (t : WriteTxn)
      → h < fuel
      → length key ≤ 1000
      → InTxn k catalog catalog_root tree_id h tree t
      → TxnReads t (find key (flatten h tree)) (get fuel tree_id key t)
  unfolding get open_root
  get-TxnReads key t enough' short s =
      let found = resolve-Resolves fuel k catalog catalog_root tree_id h tree enough t s in
      let p = found.pager' in
      let reads =
        with_tree-PagerReads (page_of h tree) (tree_get fuel key) p (find key (flatten h tree)) (
          get-finds fuel h key tree (open_root p (page_of h tree)) enough' short
            found.serves.tree_stored.holds) in
      record {
        pager' = (with_tree (page_of h tree) (tree_get fuel key) p).1;
        outcome = rw (found.outcome) (get_steps key (find key (flatten h tree)) p t reads.result);
        same_file = reads.file ∙ found.same_file;
        coherent = reads.coherent;
      }

  -- An insertion into one tree leaves another tree on other pages as it was.
  pub insert-keeps :
      (other_id h' : ℕ) (other : Tree h') (key value : List ℕ) (t : WriteTxn)
      → h < fuel
      → length key ≤ 1000
      → length value ≤ 1000
      → InTxn k catalog catalog_root tree_id h tree t
      → LeafFits (upsert key value (descend h key tree))
      → other_id ≢ tree_id
      → Apart h tree h' other
      → InTxn k catalog catalog_root other_id h' other t
      → InTxn k catalog catalog_root other_id h' other (insert fuel tree_id key value t).1
  unfolding open_root
  insert-keeps other_id h' other key value t enough' short_key short_value s fits new apart o =
      let i =
        insert-Inserts fuel k catalog catalog_root tree_id h tree enough key value t enough'
          short_key short_value s fits in
      let b = i.binds in
      let before : Serves k catalog catalog_root other_id h' other i.before =
        Serves-same k catalog catalog_root other_id h' other t.db.pager i.before i.same_file
          i.serves.catalog_held.coherent o.serves in
      let after = (tree_insert fuel key value (open_root i.before (page_of h tree))).1.pager in
      let roots : lookup other_id (insert_root tree_id (page_of h tree) t.tree_roots)
          ≡ lookup other_id t.tree_roots =
        ground (arith, lookup-insert tree_id other_id (page_of h tree) t.tree_roots) in
      subst
        (λ (x : Result (Unit {0}) MvccFailure × WriteTxn).
          InTxn k catalog catalog_root other_id h' other x.1)
        (sym i.outcome)
        (record {
          root = s.root;
          serves = record {
            catalog_held = record {
              root = before.catalog_held.root;
              coherent = b.stored.holds.coherent;
              on_disk =
                  OnDisk-keep i.before.file.pages _ (λ id. All (λ x. id ≢ x) (pages_of h tree))
                    b.frame k catalog before.catalog_held.on_disk i.serves.apart;
              ordered = before.catalog_held.ordered;
            };
            tree_stored = record {
              holds = record {
                root = refl;
                coherent = b.stored.holds.coherent;
                on_disk =
                    OnDisk-keep i.before.file.pages _ (λ id. All (λ x. id ≢ x) (pages_of h tree))
                      b.frame h' other before.tree_stored.holds.on_disk apart;
                ordered = before.tree_stored.holds.ordered;
              };
              distinct = before.tree_stored.distinct;
              no_faults = b.stored.no_faults;
            };
            named = before.named;
            apart = before.apart;
          };
          remembered =
              subst (λ (x : Option ℕ). (x ≡ none) ⊎ (x ≡ some (page_of h' other))) (sym roots)
                o.remembered;
        })
