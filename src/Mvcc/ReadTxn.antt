-- ===== src/Mvcc/ReadTxn.antt =====
-- crates/gemgraph-mvcc/src/txn.rs: `ReadTxn`. The database that it borrows is the state of its
-- methods, since a read changes the page cache; `fuel` bounds the descents in the trees.
use gemgraph.Base.{ℕ, List, Option, Method, ◌>>=◌, pure}
use gemgraph.BTree.Tree.{get as tree_get, range as tree_range}
use gemgraph.Mvcc.{MvccFailure}
use gemgraph.Mvcc.Catalog.{with_tree, root_in_catalog}
use gemgraph.Mvcc.Database.{Database, pager_call}

pub record ReadTxn : Type 0 where
  pub root : ℕ

unfoldable pub read_txn : Database → ReadTxn
read_txn db = record { root = db.current_root }

module _ (fuel : ℕ) where
  unfoldable pub get : ReadTxn → ℕ → List ℕ → Method Database MvccFailure (Option (List ℕ))
  unfolding root_in_catalog tree_get
  get txn tree_id key = pager_call (do
    tree_root ← root_in_catalog fuel txn.root tree_id
    (value, _) ← with_tree tree_root (tree_get fuel key)
    pure value)

  unfoldable pub range :
      ReadTxn → ℕ → List ℕ → List ℕ → Method Database MvccFailure (List (List ℕ × List ℕ))
  unfolding root_in_catalog tree_range
  range txn tree_id start end = pager_call (do
    tree_root ← root_in_catalog fuel txn.root tree_id
    (pairs, _) ← with_tree tree_root (tree_range fuel start end)
    pure pairs)
