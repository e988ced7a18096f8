-- ===== src/Mvcc/InTxn.antt =====
-- A tree in a write transaction of crates/gemgraph-mvcc/src/txn.rs, and the steps of an insertion.
use gemgraph.Base.{
  ℕ, zero, suc, ◌≤◌, ◌<◌, ◌≡◌, ◌≢◌, refl, sym, ap, ◌∙◌, List, [], ◌∷◌, length, Option, none, some,
  ==_refl, Result, ok, and_then, All, arith, ◌⊎◌, inl, inr,
}
use gemgraph.Base.Assoc.{lookup, insert as insert_root, lookup-insert}
use gemgraph.Bytes.Le.{to_le_bytes}
use gemgraph.Pager.Store.{Pager}
use gemgraph.BTree.Leaf.{upsert}
use gemgraph.BTree.Tree.{Call, open_root, insert as tree_insert}
use gemgraph.BTree.Tree.Model.{Tree, page_of, pages_of, LeafFits, descend}
use gemgraph.BTree.Tree.Replace.{OnDisk-keep}
use gemgraph.BTree.Tree.Update.{Binds}
use gemgraph.BTree.Tree.Update.Insert.{insert-Binds}
use gemgraph.Mvcc.{MvccFailure}
use gemgraph.Mvcc.Catalog.{with_tree, root_in_catalog}
use gemgraph.Mvcc.Database.{Database}
use gemgraph.Mvcc.WriteTxn.{WriteTxn, write_txn, on_pager, resolve_tree_root, update_root, insert}
use gemgraph.Mvcc.Serves.{Serves, Serves-same, root_in_catalog-PagerReads}

pub lookup_inserted : (id v : ℕ) (m : List (ℕ × ℕ)) → lookup id (insert_root id v m) ≡ some v
lookup_inserted id v m = ground (arith, lookup-insert id id v m)

head_or_zero : List ℕ → ℕ
head_or_zero [] = 0
head_or_zero (x ∷ xs) = x

-- The first of a tree's pages is its root's.
pub page_of-pages_of :
    (h : ℕ) (a b : Tree h) → pages_of h a ≡ pages_of h b → page_of h a ≡ page_of h b
unfolding head_or_zero
page_of-pages_of zero a b e = ap head_or_zero e
page_of-pages_of (suc h) a b e = ap head_or_zero e

-- A change of one tree: its new root page is the old one, and the catalog is left alone.
module _ {A : Type 0} (k : ℕ) (catalog : Tree k) (catalog_root tree_id h : ℕ) (tree : Tree h) where
  pub Serves-Binds :
      (p : Pager) (key : List ℕ) (value : Option (List ℕ)) (a : A) (call : Call A)
      → Serves k catalog catalog_root tree_id h tree p
      → (b : Binds h tree
          (open_root p (page_of h tree))
          key
          value
          a
          (call (open_root p (page_of h tree))))
      → Serves k catalog catalog_root tree_id h
          (b.tree')
          (call (open_root p (page_of h tree))).1.pager
  unfolding open_root
  Serves-Binds p key value a call s b =
      let root = sym (page_of-pages_of h b.tree' tree b.same_pages) in
      record {
        catalog_held = record {
          root = s.catalog_held.root;
          coherent = b.stored.holds.coherent;
          on_disk =
              OnDisk-keep p.file.pages _ (λ id. All (λ x. id ≢ x) (pages_of h tree)) b.frame k
                catalog s.catalog_held.on_disk s.apart;
          ordered = s.catalog_held.ordered;
        };
        tree_stored = record {
          holds = record {
            root = refl;
            coherent = b.stored.holds.coherent;
            on_disk = b.stored.holds.on_disk;
            ordered = b.stored.holds.ordered;
          };
          distinct = b.stored.distinct;
          no_faults = b.stored.no_faults;
        };
        named = s.named ∙ ap (λ id. some (to_le_bytes 4 id)) root;
        apart = rw (b.same_pages) s.apart;
      }

-- The transaction on another state of the pager.
abbrev pub with_pager : Pager → WriteTxn → WriteTxn
with_pager p t = record t { db = record t.db { pager = p } }

-- A transaction that has the catalog and the tree, and whose own roots have that of the tree or none.
pub record InTxn (k : ℕ) (catalog : Tree k) (catalog_root tree_id h : ℕ) (tree : Tree h)
    (t : WriteTxn) : Type 0 where
  pub root : t.catalog_root ≡ catalog_root
  pub serves : Serves k catalog catalog_root tree_id h tree t.db.pager
  pub remembered :
      (lookup tree_id t.tree_roots ≡ none) ⊎ (lookup tree_id t.tree_roots ≡ some (page_of h tree))

-- A write transaction begins with what the database serves.
pub write_txn-InTxn :
    (k : ℕ) (catalog : Tree k) (catalog_root tree_id h : ℕ) (tree : Tree h) (db : Database)
    → db.current_root ≡ catalog_root
    → Serves k catalog catalog_root tree_id h tree db.pager
    → InTxn k catalog catalog_root tree_id h tree (write_txn db)
unfolding write_txn lookup
write_txn-InTxn k catalog catalog_root tree_id h tree db root s = record {
  root = root;
  serves = s;
  remembered = inl refl;
}

module _ (fuel k : ℕ) (catalog : Tree k) (catalog_root tree_id h : ℕ) (tree : Tree h)
    (enough : k < fuel) where
  pub record Resolves (t : WriteTxn) (r : Result ℕ MvccFailure × WriteTxn) : Type 0 where
    pub pager' : Pager
    pub same_file : pager'.file ≡ t.db.pager.file
    pub outcome : r ≡ (ok (page_of h tree), with_pager pager' t)
    pub serves : Serves k catalog catalog_root tree_id h tree pager'

  pub resolve-Resolves :
      (t : WriteTxn)
      → InTxn k catalog catalog_root tree_id h tree t
      → Resolves t (resolve_tree_root fuel tree_id t)
  unfolding resolve_tree_root
  resolve-Resolves t s = by_case s.remembered
    where
      by_case :
          (lookup tree_id t.tree_roots ≡ none)
            ⊎ (lookup tree_id t.tree_roots ≡ some (page_of h tree))
          → Resolves t (resolve_tree_root fuel tree_id t)
      by_case (inr e) = record {
        pager' = t.db.pager;
        same_file = refl;
        outcome = rw e refl;
        serves = s.serves;
      }
      by_case (inl e) =
          let reads =
            root_in_catalog-PagerReads fuel k catalog catalog_root tree_id h tree enough t.db.pager
              s.serves in
          record {
            pager' = (root_in_catalog fuel catalog_root tree_id t.db.pager).1;
            same_file = reads.file;
            outcome = rw (e, s.root, reads.result) refl;
            serves =
                Serves-same k catalog catalog_root tree_id h tree t.db.pager _ reads.file
                  reads.coherent s.serves;
          }

  -- The steps of `insert` behind the lookup of the root.
  insert_steps :
      (key value : List ℕ) (p : Pager) (t : WriteTxn)
      → let r = tree_insert fuel key value (open_root p (page_of h tree)) in
        (r.0 ≡ ok tt)
        → (r.1.root ≡ page_of h tree)
        → and_then
            (on_pager (with_tree (page_of h tree) (tree_insert fuel key value)) (with_pager p t))
            (λ (_, new_root). update_root fuel tree_id (page_of h tree) new_root)
          ≡ (
            ok tt,
            record (with_pager r.1.pager t) {
              tree_roots = insert_root tree_id (page_of h tree) t.tree_roots;
            },
          )
  unfolding open_root
  insert_steps key value p t done same = rw (done, same, ==_refl (page_of h tree)) refl

  -- The insertion as one in the tree, on the pager behind the lookup of the root.
  pub record Inserts (key value : List ℕ) (t : WriteTxn)
      (r : Result (Unit {0}) MvccFailure × WriteTxn) : Type 0 where
    pub before : Pager
    pub same_file : before.file ≡ t.db.pager.file
    pub serves : Serves k catalog catalog_root tree_id h tree before
    pub binds :
        Binds h tree
          (open_root before (page_of h tree))
          key
          (some value)
          tt
          (tree_insert fuel key value (open_root before (page_of h tree)))
    pub outcome : r ≡ (
      ok tt,
      record (with_pager
          (tree_insert fuel key value (open_root before (page_of h tree))).1.pager
          t) { tree_roots = insert_root tree_id (page_of h tree) t.tree_roots },
    )

  pub insert-Inserts :
      (key value : List ℕ) (t : WriteTxn)
      → h < fuel
      → length key ≤ 1000
      → length value ≤ 1000
      → InTxn k catalog catalog_root tree_id h tree t
      → LeafFits (upsert key value (descend h key tree))
      → Inserts key value t (insert fuel tree_id key value t)
  unfolding insert open_root
  insert-Inserts key value t enough' short_key short_value s fits =
      let found = resolve-Resolves t s in
      let p = found.pager' in
      let b =
        insert-Binds fuel h key value tree (open_root p (page_of h tree)) enough' short_key
          short_value found.serves.tree_stored fits in
      let same = b.stored.holds.root ∙ page_of-pages_of h b.tree' tree b.same_pages in
      record {
        before = p;
        same_file = found.same_file;
        serves = found.serves;
        binds = b;
        outcome = rw (found.outcome) (insert_steps key value p t b.result same);
      }
