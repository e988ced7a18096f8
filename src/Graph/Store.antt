-- ===== src/Graph/Store.antt =====
-- What the graph asks of a transaction: the trees of crates/gemgraph-mvcc/src/txn.rs by id, read by
-- both kinds of transactions and written by one. bincode is a parameter of what uses it.
use gemgraph.Base.{ℕ, Bool, List, Option, none, some, Result, ok, err, Method}
use gemgraph.Mvcc.{MvccFailure, error, panicked as mvcc_panicked, out_of_fuel as mvcc_fuel}
use gemgraph.Mvcc.Database.{Database}
use gemgraph.Mvcc.ReadTxn as ReadTxn
use gemgraph.Mvcc.WriteTxn as WriteTxn
use gemgraph.Graph.Types.{
  NodeRecord, EdgeRecord, mvcc, serialization, GraphFailure, graph_error, panicked, out_of_fuel,
}

pub record Reader (S : Type 0) : Type 0 where
  pub get : ℕ → List ℕ → Method S GraphFailure (Option (List ℕ))
  pub range : ℕ → List ℕ → List ℕ → Method S GraphFailure (List (List ℕ × List ℕ))

pub record Writer (S : Type 0) : Type 0 where
  pub reader : Reader S
  pub insert : ℕ → List ℕ → List ℕ → Method S GraphFailure (Unit {0})
  pub delete : ℕ → List ℕ → Method S GraphFailure Bool

-- `bincode::serialize` and `deserialize`; `none` is an error.
pub record Bincode (F : Type 0) : Type 0 where
  pub serialize_node : NodeRecord F → Option (List ℕ)
  pub deserialize_node : List ℕ → Option (NodeRecord F)
  pub serialize_edge : EdgeRecord F → Option (List ℕ)
  pub deserialize_edge : List ℕ → Option (EdgeRecord F)

-- `#[from] MvccError`
abbrev pub of_mvcc : {A : Type 0} → Result A MvccFailure → Result A GraphFailure
of_mvcc (ok a) = ok a
of_mvcc (err (error e)) = err (graph_error (mvcc e))
of_mvcc (err mvcc_panicked) = err panicked
of_mvcc (err mvcc_fuel) = err out_of_fuel

abbrev pub from_mvcc : {S A : Type 0} → Method S MvccFailure A → Method S GraphFailure A
from_mvcc m s = let (r, s') = m s in (of_mvcc r, s')

-- `From<bincode::Error>`
abbrev pub of_bincode : {A : Type 0} → Option A → Result A GraphFailure
of_bincode none = err (graph_error serialization)
of_bincode (some a) = ok a

abbrev pub read_store : ℕ → ReadTxn.ReadTxn → Reader Database
read_store fuel txn = record {
  get = λ tree_id key. from_mvcc (ReadTxn.get fuel txn tree_id key);
  range = λ tree_id start end. from_mvcc (ReadTxn.range fuel txn tree_id start end);
}

abbrev pub write_store : ℕ → Writer WriteTxn.WriteTxn
write_store fuel = record {
  reader = record {
    get = λ tree_id key. from_mvcc (WriteTxn.get fuel tree_id key);
    range = λ tree_id start end. from_mvcc (WriteTxn.range fuel tree_id start end);
  };
  insert = λ tree_id key value. from_mvcc (WriteTxn.insert fuel tree_id key value);
  delete = λ tree_id key. from_mvcc (WriteTxn.delete fuel tree_id key);
}
