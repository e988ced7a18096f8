-- ===== src/Mvcc/WriteTxn.antt =====
-- crates/gemgraph-mvcc/src/txn.rs: `WriteTxn`, with the database that it borrows as a part of its
-- state. `crc32c` is the checksum of the crate of that name; `fuel` bounds the descents in the trees.
use gemgraph.Base.{
  ℕ, ◌+◌, ◌%◌, ◌^◌, Bool, false, List, [], Option, none, some, if◌then◌else◌, ◌==◌, Result, ok,
  Method, ◌>>=◌, ◌>>◌, pure,
}
use gemgraph.Base.Assoc.{lookup, insert as insert_root}
use gemgraph.Pager.Store.{commit_meta, sync as sync_pager}
use gemgraph.Wal.Record.{WalError}
use gemgraph.Wal.Writer.{WalWriter, append_commit, sync as sync_log}
use gemgraph.BTree.Tree.{
  get as tree_get, insert as tree_insert, delete as tree_delete, range as tree_range,
}
use gemgraph.Mvcc.{MvccFailure, PagerCall, of_wal}
use gemgraph.Mvcc.Catalog.{with_tree, new_tree, catalog_set, catalog_next_tree_id, root_in_catalog}
use gemgraph.Mvcc.Database.{Database, pager_call, from_store}

pub record WriteTxn : Type 0 where
  pub db : Database
  pub catalog_root : ℕ
  pub tree_roots : List (ℕ × ℕ)
  pub committed : Bool

unfoldable pub write_txn : Database → WriteTxn
write_txn db = record {
  db = db;
  catalog_root = db.current_root;
  tree_roots = [];
  committed = false;
}

abbrev pub TxnCall : Type 0 → Type 0
TxnCall A = Method WriteTxn MvccFailure A

abbrev pub on_pager : {A : Type 0} → PagerCall A → TxnCall A
on_pager m t = let (r, db) = pager_call m t.db in (r, record t { db = db })

abbrev set_catalog_root : ℕ → TxnCall (Unit {0})
set_catalog_root root t = (ok tt, record t { catalog_root = root })

-- `self.tree_roots.insert`
abbrev remember_root : ℕ → ℕ → TxnCall (Unit {0})
remember_root tree_id root t =
    (ok tt, record t { tree_roots = insert_root tree_id root t.tree_roots })

module _ (fuel : ℕ) where
  abbrev resolve_from : ℕ → Option ℕ → TxnCall ℕ
  resolve_from tree_id (some root) t = (ok root, t)
  resolve_from tree_id none t = on_pager (root_in_catalog fuel t.catalog_root tree_id) t

  -- The roots of this transaction first, then the catalog.
  unfoldable pub resolve_tree_root : ℕ → TxnCall ℕ
  unfolding root_in_catalog
  resolve_tree_root tree_id t = resolve_from tree_id (lookup tree_id t.tree_roots) t

  unfoldable pub ensure_catalog : TxnCall (Unit {0})
  unfolding new_tree
  ensure_catalog t =
      if t.catalog_root == 0 then (on_pager new_tree >>= set_catalog_root) t else (ok tt, t)

  abbrev register : ℕ → ℕ → TxnCall (Unit {0})
  register tree_id root t =
      (on_pager (catalog_set fuel t.catalog_root tree_id root) >>= set_catalog_root) t

  unfoldable pub create_tree : TxnCall ℕ
  unfolding ensure_catalog catalog_next_tree_id new_tree catalog_set
  create_tree t =
      (do
        ensure_catalog
        new_id ← λ t1. on_pager (catalog_next_tree_id fuel t1.catalog_root) t1
        root ← on_pager new_tree
        register new_id root
        remember_root new_id root
        pure new_id)
        t

  unfoldable pub get : ℕ → List ℕ → TxnCall (Option (List ℕ))
  unfolding resolve_tree_root tree_get
  get tree_id key t =
      (do
        tree_root ← resolve_tree_root tree_id
        (value, _) ← on_pager (with_tree tree_root (tree_get fuel key))
        pure value)
        t

  -- The catalog is told of a root that a split has changed.
  abbrev pub update_root : ℕ → ℕ → ℕ → TxnCall (Unit {0})
  update_root tree_id tree_root new_root =
      (if new_root == tree_root then pure tt else register tree_id new_root)
      >> remember_root tree_id new_root

  unfoldable pub insert : ℕ → List ℕ → List ℕ → TxnCall (Unit {0})
  unfolding resolve_tree_root tree_insert catalog_set
  insert tree_id key value t =
      (do
        tree_root ← resolve_tree_root tree_id
        (_, new_root) ← on_pager (with_tree tree_root (tree_insert fuel key value))
        update_root tree_id tree_root new_root)
        t

  unfoldable pub delete : ℕ → List ℕ → TxnCall Bool
  unfolding resolve_tree_root tree_delete catalog_set
  delete tree_id key t =
      (do
        tree_root ← resolve_tree_root tree_id
        (existed, new_root) ← on_pager (with_tree tree_root (tree_delete fuel key))
        update_root tree_id tree_root new_root
        pure existed)
        t

  unfoldable pub range : ℕ → List ℕ → List ℕ → TxnCall (List (List ℕ × List ℕ))
  unfolding resolve_tree_root tree_range
  range tree_id start end t =
      (do
        tree_root ← resolve_tree_root tree_id
        (pairs, _) ← on_pager (with_tree tree_root (tree_range fuel start end))
        pure pairs)
        t

-- The database behind a transaction that is dropped.
unfoldable pub abort : WriteTxn → Database
abort t = t.db

module _ (crc32c : List ℕ → ℕ) where
  abbrev pub log_call : {A : Type 0} → Method WalWriter WalError A → Method Database MvccFailure A
  log_call m db = let (r, w) = m db.wal in (of_wal r, record db { wal = w })

  -- The meta page that names the catalog, the transaction and the end of the log.
  abbrev pub commit_new_meta : ℕ → ℕ → ℕ → PagerCall (Unit {0})
  commit_new_meta catalog_root new_txn_id new_wal_offset p =
      let new_meta = record p.meta {
        root_page_id = catalog_root;
        txn_id = new_txn_id;
        wal_offset = new_wal_offset;
      } in
      from_store (commit_meta crc32c new_meta) p

  abbrev pub set_committed : ℕ → ℕ → Method Database MvccFailure (Unit {0})
  set_committed catalog_root new_txn_id db =
      (ok tt, record db { current_root = catalog_root; current_txn_id = new_txn_id })

  -- What is left is the database, with what was changed before an error.
  unfoldable pub commit : WriteTxn → Result (Unit {0}) MvccFailure × Database
  unfolding append_commit commit_meta
  commit t =
      let new_txn_id = (t.db.current_txn_id + 1) % 2 ^ 64 in
      (do
        log_call (append_commit crc32c new_txn_id)
        log_call sync_log
        new_wal_offset ← λ db. (ok db.wal.offset, db)
        pager_call (from_store sync_pager)
        pager_call (commit_new_meta t.catalog_root new_txn_id new_wal_offset)
        set_committed t.catalog_root new_txn_id)
        t.db
