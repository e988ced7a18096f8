-- ===== src/Graph/Db.antt =====
-- crates/gemgraph-graph/src/graph.rs, and how the transactions of read_txn.rs and write_txn.rs begin
-- and end. `crc32c` is the checksum of the crate of that name.
use gemgraph.Base.{
  ℕ, Bool, false, if◌then◌else◌, List, [], ◌∷◌, Option, none, some, Result, ok, err, Method, ◌>>=◌,
  ◌>>◌, pure,
}
use gemgraph.Bytes.Le.{to_le_bytes}
use gemgraph.Bytes.Order.{eq_bytes}
use gemgraph.Pager.Disk.{Disk}
use gemgraph.Mvcc.Database.{Database, create as create_database, open_database}
use gemgraph.Mvcc.ReadTxn as ReadTxn
use gemgraph.Mvcc.WriteTxn.{
  WriteTxn, write_txn, create_tree, commit as commit_txn, abort as abort_txn,
}
use gemgraph.Graph.Types.{GraphFailure, graph_error, invalid_database}
use gemgraph.Graph.Store.{of_mvcc, from_mvcc, write_store}
use gemgraph.Graph.Read.{Trees}
use gemgraph.Graph.Write.{next_node_id, next_edge_id}

-- `b"gemgraph_v1"`
abbrev magic_value : List ℕ
magic_value = 103 ∷ 101 ∷ 109 ∷ 103 ∷ 114 ∷ 97 ∷ 112 ∷ 104 ∷ 95 ∷ 118 ∷ 49 ∷ []

-- `b"magic"`
abbrev magic_key : List ℕ
magic_key = 109 ∷ 97 ∷ 103 ∷ 105 ∷ 99 ∷ []

pub record GraphDb : Type 0 where
  pub db : Database
  pub trees : Trees

pub record GraphReadTxn : Type 0 where
  pub txn : ReadTxn.ReadTxn
  pub trees : Trees

pub record GraphWriteTxn : Type 0 where
  pub txn : WriteTxn
  pub trees : Trees

abbrev pub first_trees : Trees
first_trees = record {
  nodes_tree = 2;
  edges_tree = 3;
  adjacency_tree = 4;
  label_index_tree = 5;
  meta_tree = 1;
}

abbrev has_magic : Option (List ℕ) → Bool
has_magic none = false
has_magic (some v) = eq_bytes v magic_value

module _ (crc32c : List ℕ → ℕ) (fuel : ℕ) where
  -- The trees and the first entries of a new graph.
  unfoldable pub init_trees : Method WriteTxn GraphFailure Trees
  init_trees =
      let new_tree = from_mvcc (create_tree fuel) in
      let insert = (write_store fuel).insert in
      new_tree >>= λ meta_tree. new_tree >>= λ nodes_tree. new_tree >>= λ edges_tree.
      new_tree >>= λ adjacency_tree. new_tree >>= λ label_index_tree.
      insert meta_tree magic_key magic_value
      >> insert meta_tree next_node_id (to_le_bytes 8 1)
      >> insert meta_tree next_edge_id (to_le_bytes 8 1)
      >> pure (record {
        nodes_tree = nodes_tree;
        edges_tree = edges_tree;
        adjacency_tree = adjacency_tree;
        label_index_tree = label_index_tree;
        meta_tree = meta_tree;
      })

  -- The commit of the transaction that made the trees.
  abbrev committed_graph : Result Trees GraphFailure × WriteTxn → Result GraphDb GraphFailure
  committed_graph (err e, txn) = err e
  committed_graph (ok trees, txn) =
      let (r, db) = commit_txn crc32c txn in
      elim (of_mvcc r) [ ok u ↦ ok (record { db = db; trees = trees }) | err e ↦ err e ]

  -- `GraphDb::create`, on the faults of the device and of the log.
  unfoldable pub create_graph :
      List (Option (List ℕ)) → List (Option ℕ) → Result GraphDb GraphFailure
  unfolding init_trees
  create_graph faults log_faults = elim (of_mvcc (create_database crc32c faults log_faults)) [
    | ok db ↦ committed_graph (init_trees (write_txn db))
    | err e ↦ err e
  ]

  abbrev check_magic :
      Result (Option (List ℕ)) GraphFailure × Database → Result GraphDb GraphFailure
  check_magic (err e, db) = err e
  check_magic (ok found, db) =
      if has_magic found
      then ok (record { db = db; trees = first_trees })
      else err (graph_error invalid_database)

  -- `GraphDb::open`
  unfoldable pub open_graph : Disk → Option (List ℕ) → List (Option ℕ) → Result GraphDb GraphFailure
  open_graph d log log_faults = elim (of_mvcc (open_database crc32c d log log_faults)) [
    | ok db ↦
        check_magic
          (from_mvcc (ReadTxn.get fuel (ReadTxn.read_txn db) first_trees.meta_tree magic_key) db)
    | err e ↦ err e
  ]

  -- `GraphWriteTxn::commit`
  unfoldable pub commit_graph : GraphWriteTxn → Result (Unit {0}) GraphFailure × Database
  commit_graph t = let (r, db) = commit_txn crc32c t.txn in (of_mvcc r, db)

unfoldable pub read_graph : GraphDb → GraphReadTxn
read_graph g = record { txn = ReadTxn.read_txn g.db; trees = g.trees }

unfoldable pub write_graph : GraphDb → GraphWriteTxn
write_graph g = record { txn = write_txn g.db; trees = g.trees }

-- `GraphWriteTxn::abort`
unfoldable pub abort_graph : GraphWriteTxn → Database
abort_graph t = abort_txn t.txn
