-- ===== src/Mvcc/Writes.antt =====
-- What the writes of a transaction leave to the transaction itself, and to later ones when it is
-- aborted.
use mathlib.Core.Path.{subst}
use gemgraph.Base.{
  ℕ, ◌≤◌, ◌<◌, ◌≡◌, refl, sym, ap, ◌∙◌, List, length, Option, some, if◌then◌else◌, Result, ok,
  arith, inr,
}
use gemgraph.Bytes.Order.{eq_bytes, compare_bytes_refl}
use gemgraph.BTree.Leaf.{upsert}
use gemgraph.BTree.Leaf.Refinement.{find}
use gemgraph.BTree.Tree.{open_root, insert as tree_insert}
use gemgraph.BTree.Tree.Model.{Tree, page_of, flatten, pages_of, LeafFits, descend}
use gemgraph.Mvcc.{MvccFailure}
use gemgraph.Mvcc.Database.{Database}
use gemgraph.Mvcc.ReadTxn.{read_txn, get}
use gemgraph.Mvcc.WriteTxn.{WriteTxn, write_txn, insert, abort}
use gemgraph.Mvcc.Serves.{Serves, get-Serves}
use gemgraph.Mvcc.InTxn.{
  lookup_inserted, page_of-pages_of, Serves-Binds, InTxn, write_txn-InTxn, insert-Inserts,
}

-- What a successful change of the tree leaves: the transaction has a tree that holds `value` at the
-- key and at every other key what it held, and the rest of the database is as it was.
pub record Written {A : Type 0} (k : ℕ) (catalog : Tree k) (catalog_root tree_id h : ℕ)
    (tree : Tree h) (t : WriteTxn) (key : List ℕ) (value : Option (List ℕ)) (a : A)
    (r : Result A MvccFailure × WriteTxn) : Type 0 where
  pub result : r.0 ≡ ok a
  pub tree' : Tree h
  pub in_txn : InTxn k catalog catalog_root tree_id h tree' r.1
  pub same_pages : pages_of h tree' ≡ pages_of h tree
  pub committed_root : r.1.db.current_root ≡ t.db.current_root
  pub finds :
      (other : List ℕ)
      → find other (flatten h tree')
        ≡ (if eq_bytes key other then value else find other (flatten h tree))

module _ (fuel k : ℕ) (catalog : Tree k) (catalog_root tree_id h : ℕ) (tree : Tree h)
    (enough : k < fuel) where
  -- An insertion of a write transaction, with fuel for the levels of the catalog and the tree, of a
  -- key and a value of at most 1,000 bytes each, on a device without faults, where the leaf with the
  -- new entry fits its page.
  pub insert-Written :
      (key value : List ℕ) (t : WriteTxn)
      → h < fuel
      → length key ≤ 1000
      → length value ≤ 1000
      → InTxn k catalog catalog_root tree_id h tree t
      → LeafFits (upsert key value (descend h key tree))
      → Written k catalog catalog_root tree_id h tree t key
          (some value)
          tt
          (insert fuel tree_id key value t)
  unfolding open_root
  insert-Written key value t enough' short_key short_value s fits =
      let i =
        insert-Inserts fuel k catalog catalog_root tree_id h tree enough key value t enough'
          short_key short_value s fits in
      let b = i.binds in
      let served =
        Serves-Binds k catalog catalog_root tree_id h tree i.before key (some value) tt
          (tree_insert fuel key value) i.serves b in
      subst (λ r. Written k catalog catalog_root tree_id h tree t key (some value) tt r)
        (sym i.outcome)
        (record {
          result = refl;
          tree' = b.tree';
          in_txn = record {
            root = s.root;
            serves = served;
            remembered = inr (
                lookup_inserted tree_id (page_of h tree) t.tree_roots
                ∙ ap some (sym (page_of-pages_of h b.tree' tree b.same_pages)));
          };
          same_pages = b.same_pages;
          committed_root = refl;
          finds = b.finds;
        })

-- The insertion of a transaction that is aborted is what the next transaction reads: leaves are
-- written in place, and an abort takes nothing back. It is of a key and a value of at most 1,000 bytes
-- each, with fuel for the levels of the catalog and the tree, on a device without faults, where the
-- leaf with the new entry fits its page.
pub abort-keeps_insert :
    (fuel k : ℕ) (catalog : Tree k) (catalog_root tree_id h : ℕ) (tree : Tree h)
    (key value : List ℕ) (db : Database)
    → k < fuel
    → h < fuel
    → length key ≤ 1000
    → length value ≤ 1000
    → db.current_root ≡ catalog_root
    → Serves k catalog catalog_root tree_id h tree db.pager
    → LeafFits (upsert key value (descend h key tree))
    → let db' = abort (insert fuel tree_id key value (write_txn db)).1 in
      (get fuel (read_txn db') tree_id key db').0 ≡ ok (some value)
unfolding abort write_txn
abort-keeps_insert fuel k catalog catalog_root tree_id h tree key value db enough enough' short_key
      short_value root s fits =
    let t = write_txn db in
    let w =
      insert-Written fuel k catalog catalog_root tree_id h tree enough key value t enough' short_key
        short_value (write_txn-InTxn k catalog catalog_root tree_id h tree db root s) fits in
    let db' = (insert fuel tree_id key value t).1.db in
    let here : (if eq_bytes key key then some value else find key (flatten h tree)) ≡ some value =
      ground (arith, compare_bytes_refl key) in
    let (result, after) =
      get-Serves fuel k catalog catalog_root tree_id h w.tree' enough key db' enough' short_key
        (w.committed_root ∙ root) w.in_txn.serves in
    result ∙ ap ok (w.finds key ∙ here)
