-- ===== src/Graph/Write.antt =====
-- crates/gemgraph-graph/src/write_txn.rs, over what the graph asks of a transaction. What it reads,
-- it reads as Read does.
use gemgraph.Base.{
  ℕ, ◌+◌, ◌%◌, ◌^◌, Bool, true, false, List, [], ◌∷◌, length, Option, none, some, Result, ok, err,
  Method, ◌>>=◌, ◌>>◌, pure, lift, ◌==◌, if◌then◌else◌,
}
use gemgraph.Bytes.Le.{to_le_bytes, from_le_bytes}
use gemgraph.Graph.Keys.{
  Direction, out_edges, in_edges, hash_str, encode_adjacency_key, decode_adjacency_key,
  adj_dir_start, adj_dir_end, encode_label_key,
}
use gemgraph.Graph.Types.{
  Value, NodeRecord, EdgeRecord, GraphFailure, graph_error, panicked, node_not_found, set_property,
}
use gemgraph.Graph.Store.{Writer, Bincode, of_bincode}
use gemgraph.Graph.Read.{Trees, id_key}

-- `b"next_node_id"`
abbrev pub next_node_id : List ℕ
next_node_id = 110 ∷ 101 ∷ 120 ∷ 116 ∷ 95 ∷ 110 ∷ 111 ∷ 100 ∷ 101 ∷ 95 ∷ 105 ∷ 100 ∷ []

-- `b"next_edge_id"`
abbrev pub next_edge_id : List ℕ
next_edge_id = 110 ∷ 101 ∷ 120 ∷ 116 ∷ 95 ∷ 101 ∷ 100 ∷ 103 ∷ 101 ∷ 95 ∷ 105 ∷ 100 ∷ []

-- The counter in a value: `expect` on the value and `unwrap` on its eight bytes.
abbrev pub counter_of : Option (List ℕ) → Result ℕ GraphFailure
counter_of none = err panicked
counter_of (some raw) = if length raw == 8 then ok (from_le_bytes raw) else err panicked

-- `ok_or(NodeNotFound)`
abbrev pub node_or : ℕ → Option (List ℕ) → Result (List ℕ) GraphFailure
node_or id none = err (graph_error (node_not_found id))
node_or id (some bytes) = ok bytes

abbrev pub opposite : Direction → Direction
opposite out_edges = in_edges
opposite in_edges = out_edges

module _ {F S : Type 0} (bincode : Bincode F) (trees : Trees) (txn : Writer S) where
  -- `alloc_node_id` and `alloc_edge_id`, by the key of the counter.
  abbrev pub alloc_id : List ℕ → Method S GraphFailure ℕ
  alloc_id key = txn.reader.get trees.meta_tree key >>= λ raw. lift (counter_of raw) >>= λ id.
      txn.insert trees.meta_tree key (to_le_bytes 8 ((id + 1) % 2 ^ 64)) >> pure id

  unfoldable pub alloc_node_id : Method S GraphFailure ℕ
  alloc_node_id = alloc_id next_node_id

  unfoldable pub alloc_edge_id : Method S GraphFailure ℕ
  alloc_edge_id = alloc_id next_edge_id

  unfoldable pub create_node : List ℕ → List (List ℕ × Value F) → Method S GraphFailure ℕ
  unfolding alloc_node_id
  create_node label props = alloc_node_id >>= λ id.
      lift (of_bincode (bincode.serialize_node (record { label = label; props = props })))
      >>= λ bytes.
          txn.insert trees.nodes_tree (id_key id) bytes
          >> txn.insert trees.label_index_tree (encode_label_key (hash_str label) id) []
          >> pure id

  -- The node must be there.
  abbrev pub check_node : ℕ → Method S GraphFailure (List ℕ)
  check_node id = txn.reader.get trees.nodes_tree (id_key id) >>= λ found. lift (node_or id found)

  unfoldable pub create_edge : ℕ → ℕ → List ℕ → List (List ℕ × Value F) → Method S GraphFailure ℕ
  unfolding alloc_edge_id
  create_edge src dst edge_type props =
      let rec : EdgeRecord F = record {
        src = src;
        dst = dst;
        edge_type = edge_type;
        props = props;
      } in
      let type_hash = hash_str edge_type in
      check_node src >> check_node dst >> alloc_edge_id >>= λ id.
      lift (of_bincode (bincode.serialize_edge rec)) >>= λ bytes.
      txn.insert trees.edges_tree (id_key id) bytes
      >> txn.insert trees.adjacency_tree (encode_adjacency_key src out_edges type_hash dst id) []
      >> txn.insert trees.adjacency_tree (encode_adjacency_key dst in_edges type_hash src id) []
      >> pure id

  -- The loop over the adjacency entries of a node in one direction: the entry of the other node, the
  -- record of the edge, and the entry itself.
  unfoldable pub remove_edges :
      ℕ → Direction → List (List ℕ × List ℕ) → Method S GraphFailure (Unit {0})
  remove_edges id direction [] = pure tt
  remove_edges id direction ((adj_key, value) ∷ entries) =
      let (src, dir, type_hash, dst, edge_id) = decode_adjacency_key adj_key in
      txn.delete trees.adjacency_tree
        (encode_adjacency_key dst (opposite direction) type_hash id edge_id)
      >> txn.delete trees.edges_tree (id_key edge_id)
      >> txn.delete trees.adjacency_tree adj_key
      >> remove_edges id direction entries

  -- All adjacency entries of a node in one direction.
  unfoldable pub detach : ℕ → Direction → Method S GraphFailure (Unit {0})
  unfolding remove_edges
  detach id direction =
      txn.reader.range trees.adjacency_tree (adj_dir_start id direction) (adj_dir_end id direction)
      >>= remove_edges id direction

  abbrev pub delete_found : ℕ → Option (List ℕ) → Method S GraphFailure Bool
  unfolding detach
  delete_found id none = pure false
  delete_found id (some bytes) = lift (of_bincode (bincode.deserialize_node bytes)) >>= λ rec.
      txn.delete trees.label_index_tree (encode_label_key (hash_str rec.label) id)
      >> detach id out_edges
      >> detach id in_edges
      >> txn.delete trees.nodes_tree (id_key id)
      >> pure true

  unfoldable pub delete_node : ℕ → Method S GraphFailure Bool
  delete_node id = txn.reader.get trees.nodes_tree (id_key id) >>= delete_found id

  abbrev pub delete_found_edge : ℕ → Option (List ℕ) → Method S GraphFailure Bool
  delete_found_edge id none = pure false
  delete_found_edge id (some bytes) = lift (of_bincode (bincode.deserialize_edge bytes)) >>= λ rec.
      let type_hash = hash_str rec.edge_type in
      txn.delete trees.adjacency_tree (encode_adjacency_key rec.src out_edges type_hash rec.dst id)
      >> txn.delete trees.adjacency_tree
          (encode_adjacency_key rec.dst in_edges type_hash rec.src id)
      >> txn.delete trees.edges_tree (id_key id)
      >> pure true

  unfoldable pub delete_edge : ℕ → Method S GraphFailure Bool
  delete_edge id = txn.reader.get trees.edges_tree (id_key id) >>= delete_found_edge id

  unfoldable pub set_node_property : ℕ → List ℕ → Value F → Method S GraphFailure (Unit {0})
  unfolding set_property
  set_node_property id key value = check_node id >>= λ bytes.
      lift (of_bincode (bincode.deserialize_node bytes)) >>= λ rec.
      let new_rec : NodeRecord F = record {
        label = rec.label;
        props = set_property key value rec.props;
      } in
      lift (of_bincode (bincode.serialize_node new_rec)) >>= λ new_bytes.
      txn.insert trees.nodes_tree (id_key id) new_bytes
