-- ===== src/Graph/Read.antt =====
-- crates/gemgraph-graph/src/read_txn.rs, and the same operations of write_txn.rs, over what the graph
-- asks of a transaction.
use gemgraph.Base.{ℕ, List, map, Option, none, some, Result, ok, err, Method, ◌>>=◌, pure, lift}
use gemgraph.Bytes.Be.{to_be_bytes}
use gemgraph.Graph.Keys.{
  Direction, hash_str, adj_prefix_start, adj_prefix_end, adj_dir_start, adj_dir_end,
  decode_adjacency_key, label_prefix_start, label_prefix_end, decode_label_key,
}
use gemgraph.Graph.Types.{Value, NodeRecord, EdgeRecord, Node, Edge, GraphFailure, property}
use gemgraph.Graph.Store.{Reader, Bincode, of_bincode}

-- The trees of a graph, which both transactions have.
pub record Trees : Type 0 where
  pub nodes_tree : ℕ
  pub edges_tree : ℕ
  pub adjacency_tree : ℕ
  pub label_index_tree : ℕ
  pub meta_tree : ℕ

-- `to_be_bytes` of a `u64`
abbrev pub id_key : ℕ → List ℕ
id_key id = to_be_bytes 8 id

abbrev pub bounds : ℕ → Direction → Option (List ℕ) → List ℕ × List ℕ
bounds node_id direction (some t) =
    (adj_prefix_start node_id direction (hash_str t), adj_prefix_end node_id direction (hash_str t))
bounds node_id direction none = (adj_dir_start node_id direction, adj_dir_end node_id direction)

abbrev pub neighbor : List ℕ × List ℕ → ℕ × ℕ
neighbor (key, value) =
    let (src, dir, type_hash, dst, edge_id) = decode_adjacency_key key in (edge_id, dst)

abbrev labelled : List ℕ × List ℕ → ℕ
labelled (key, value) = (decode_label_key key).1

module _ {F : Type 0} where
  abbrev pub node_of : ℕ → NodeRecord F → Node F
  node_of id rec = record { id = id; label = rec.label; properties = rec.props }

  abbrev pub edge_of : ℕ → EdgeRecord F → Edge F
  edge_of id rec = record {
    id = id;
    src = rec.src;
    dst = rec.dst;
    edge_type = rec.edge_type;
    properties = rec.props;
  }

  abbrev property_of : List ℕ → Option (Node F) → Option (Value F)
  property_of key none = none
  property_of key (some node) = property key node.properties

module _ {F S : Type 0} (bincode : Bincode F) (trees : Trees) (store : Reader S) where
  -- A record that is not there, and one that is.
  abbrev pub node_at : ℕ → Option (List ℕ) → Result (Option (Node F)) GraphFailure
  node_at id none = ok none
  node_at id (some bytes) = elim (of_bincode (bincode.deserialize_node bytes)) [
    | ok rec ↦ ok (some (node_of id rec))
    | err e ↦ err e
  ]

  abbrev pub edge_at : ℕ → Option (List ℕ) → Result (Option (Edge F)) GraphFailure
  edge_at id none = ok none
  edge_at id (some bytes) = elim (of_bincode (bincode.deserialize_edge bytes)) [
    | ok rec ↦ ok (some (edge_of id rec))
    | err e ↦ err e
  ]

  unfoldable pub get_node : ℕ → Method S GraphFailure (Option (Node F))
  get_node id = store.get trees.nodes_tree (id_key id) >>= λ found. lift (node_at id found)

  unfoldable pub get_edge : ℕ → Method S GraphFailure (Option (Edge F))
  get_edge id = store.get trees.edges_tree (id_key id) >>= λ found. lift (edge_at id found)

  -- The edges of a node and the nodes behind them.
  unfoldable pub neighbors : ℕ → Direction → Option (List ℕ) → Method S GraphFailure (List (ℕ × ℕ))
  neighbors node_id direction edge_type =
      let (start, end) = bounds node_id direction edge_type in
      store.range trees.adjacency_tree start end >>= λ entries. pure (map neighbor entries)

  unfoldable pub nodes_by_label : List ℕ → Method S GraphFailure (List ℕ)
  nodes_by_label label =
      let h = hash_str label in
      store.range trees.label_index_tree (label_prefix_start h) (label_prefix_end h) >>= λ entries.
      pure (map labelled entries)

  unfoldable pub get_node_property : ℕ → List ℕ → Method S GraphFailure (Option (Value F))
  unfolding get_node
  get_node_property id key = get_node id >>= λ node. pure (property_of key node)
