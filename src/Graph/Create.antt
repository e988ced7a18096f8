-- ===== src/Graph/Create.antt =====
-- `create_node` of crates/gemgraph-graph/src/write_txn.rs in a write transaction of
-- crates/gemgraph-mvcc/src/txn.rs.
use mathlib.Core.Path.{subst}
use gemgraph.Base.{
  ℕ, ◌≡◌, ◌≢◌, ◌≤◌, ◌<◌, ◌+◌, ◌%◌, ◌^◌, refl, sym, ap, ◌∙◌, arith, List, [], length, Option, some,
  if◌then◌else◌, Result, ok,
}
use gemgraph.Bytes.Le.{to_le_bytes, length-to_le_bytes}
use gemgraph.Bytes.Be.{length-to_be_bytes}
use gemgraph.Bytes.Order.{eq_bytes}
use gemgraph.BTree.Leaf.{upsert}
use gemgraph.BTree.Leaf.Refinement.{find}
use gemgraph.BTree.Tree.Model.{Tree, flatten, LeafFits, descend}
use gemgraph.Mvcc.{MvccFailure}
use gemgraph.Mvcc.WriteTxn.{WriteTxn, get, insert}
use gemgraph.Mvcc.Trees.{get-TxnReads}
use gemgraph.Mvcc.Three.{HasThree, HasThree-turn, HasThree-reads, HasThree-insert}
use gemgraph.Graph.Keys.{hash_str, encode_label_key}
use gemgraph.Graph.Types.{Value, GraphFailure}
use gemgraph.Graph.Store.{Bincode, write_store}
use gemgraph.Graph.Read.{Trees, id_key, node_at, get_node}
use gemgraph.Graph.Steps.{
  length-encode_label_key, id_key-apart, at_key, not_at_key, alloc_id-runs, create_node-runs,
  get_node-InTxn, get-value,
}
use gemgraph.Graph.Write.{next_node_id, create_node}

module _ {F : Type 0} (bincode : Bincode F) (trees : Trees) (fuel : ℕ) where
  module _ (k : ℕ) (catalog : Tree k) (catalog_root : ℕ) (hm : ℕ) (metas : Tree hm) (hn : ℕ)
      (nodes : Tree hn) (hl : ℕ) (labels : Tree hl) where
    -- The trees behind the creation of a node.
    record Created (label bytes : List ℕ) (t : WriteTxn) (id : ℕ)
        (r : Result ℕ GraphFailure × WriteTxn) : Type 0 where
      result : r.0 ≡ ok id
      metas' : Tree hm
      nodes' : Tree hn
      labels' : Tree hl
      has :
          HasThree k catalog catalog_root trees.meta_tree hm metas' trees.nodes_tree hn nodes'
            trees.label_index_tree hl labels' r.1
      counts : find next_node_id (flatten hm metas') ≡ some (to_le_bytes 8 ((id + 1) % 2 ^ 64))
      indexed : find (encode_label_key (hash_str label) id) (flatten hl labels') ≡ some []
      finds :
          (key : List ℕ)
          → find key (flatten hn nodes')
            ≡ (if eq_bytes (id_key id) key then some bytes else find key (flatten hn nodes))

    create_node-Created :
        (label : List ℕ) (props : List (List ℕ × Value F)) (bytes : List ℕ) (t : WriteTxn) (id : ℕ)
        → (k < fuel) × (hm < fuel) × (hn < fuel) × (hl < fuel)
        → HasThree k catalog catalog_root trees.meta_tree hm metas trees.nodes_tree hn nodes
            trees.label_index_tree hl labels t
        → LeafFits (
            upsert next_node_id (to_le_bytes 8 ((id + 1) % 2 ^ 64)) (descend hm next_node_id metas))
        → LeafFits (upsert (id_key id) bytes (descend hn (id_key id) nodes))
        → LeafFits (
            upsert
              (encode_label_key (hash_str label) id)
              []
              (descend hl (encode_label_key (hash_str label) id) labels))
        → find next_node_id (flatten hm metas) ≡ some (to_le_bytes 8 id)
        → id < 2 ^ 64
        → bincode.serialize_node (record { label = label; props = props }) ≡ some bytes
        → length bytes ≤ 1000
        → Created label bytes t id (create_node bincode trees (write_store fuel) label props t)
    create_node-Created label props bytes t id (ek, em, en, el) s fm fn fl counter bound made
          short =
        let count = to_le_bytes 8 ((id + 1) % 2 ^ 64) in
        let label_key = encode_label_key (hash_str label) id in
        let reads =
          get-TxnReads fuel k catalog catalog_root trees.meta_tree hm metas ek next_node_id t em
            (omega arith) s.in1 in
        let t1 = (get fuel trees.meta_tree next_node_id t).1 in
        let t2 = (insert fuel trees.meta_tree next_node_id count t1).1 in
        let t3 = (insert fuel trees.nodes_tree (id_key id) bytes t2).1 in
        let t4 = (insert fuel trees.label_index_tree label_key [] t3).1 in
        let s1 =
          HasThree-reads k catalog catalog_root _ hm metas _ hn nodes _ hl labels t _ _ reads s in
        let (w2, s2) =
          HasThree-insert k catalog catalog_root _ hm metas _ hn nodes _ hl labels fuel next_node_id
            count t1 ek em (omega arith) (omega (arith, length-to_le_bytes 8 ((id + 1) % 2 ^ 64)))
            s1 fm in
        let (w3, s3) =
          HasThree-insert k catalog catalog_root _ hn nodes _ hl labels _ hm (w2.tree') fuel
            (id_key id) bytes t2 ek en (omega (arith, length-to_be_bytes 8 id)) short
            (HasThree-turn k catalog catalog_root _ hm (w2.tree') _ hn nodes _ hl labels t2 s2)
            fn in
        let (w4, s4) =
          HasThree-insert k catalog catalog_root _ hl labels _ hm (w2.tree') _ hn (w3.tree') fuel
            label_key [] t3 ek el (omega (arith, length-encode_label_key (hash_str label) id))
            (omega arith)
            (HasThree-turn k catalog catalog_root _ hn (w3.tree') _ hl labels _ hm (w2.tree') t3 s3)
            fl in
        let allocated =
          alloc_id-runs bincode trees fuel next_node_id t id bound
            (ap (λ (r : Result (Option (List ℕ)) MvccFailure × WriteTxn). r.0) reads.outcome
              ∙ ap ok counter)
            w2.result in
        subst (Created label bytes t id)
          (sym (
            create_node-runs bincode trees fuel label props bytes t t2 id allocated made w3.result
              w4.result))
          (record {
            result = refl;
            metas' = w2.tree';
            nodes' = w3.tree';
            labels' = w4.tree';
            has =
                HasThree-turn k catalog catalog_root _ hl (w4.tree') _ hm (w2.tree') _ hn (w3.tree')
                  t4 s4;
            counts = w2.finds next_node_id ∙ at_key next_node_id _ _;
            indexed = w4.finds label_key ∙ at_key label_key _ _;
            finds = w3.finds;
          })

    -- A node is created in a write transaction that has a catalog and the trees of the counters,
    -- of the nodes and of the labels, which the catalog names by different ids and the
    -- transaction by no other root, where no page is in two of the four or twice in one of the
    -- three, with fuel for the levels of all four, on a device without faults and with a coherent
    -- cache, where the leaves with the new entries fit their pages. The next id is below 2^64,
    -- and the record serializes to at most 1,000 bytes that deserialize to it. The node has the
    -- next id and is read back with its label and properties, any other id below 2^64 reads as
    -- before, the node is in the index under its label, and the counter is one more, modulo 2^64.
    pub create_node-adds :
        (label : List ℕ) (props : List (List ℕ × Value F)) (bytes : List ℕ) (t : WriteTxn)
        (id other : ℕ)
        → (k < fuel) × (hm < fuel) × (hn < fuel) × (hl < fuel)
        → HasThree k catalog catalog_root trees.meta_tree hm metas trees.nodes_tree hn nodes
            trees.label_index_tree hl labels t
        → LeafFits (
            upsert next_node_id (to_le_bytes 8 ((id + 1) % 2 ^ 64)) (descend hm next_node_id metas))
        → LeafFits (upsert (id_key id) bytes (descend hn (id_key id) nodes))
        → LeafFits (
            upsert
              (encode_label_key (hash_str label) id)
              []
              (descend hl (encode_label_key (hash_str label) id) labels))
        → find next_node_id (flatten hm metas) ≡ some (to_le_bytes 8 id)
        → (id < 2 ^ 64) × (other < 2 ^ 64) × (other ≢ id)
        → bincode.serialize_node (record { label = label; props = props }) ≡ some bytes
        → bincode.deserialize_node bytes ≡ some (record { label = label; props = props })
        → length bytes ≤ 1000
        → let r = create_node bincode trees (write_store fuel) label props t in
          let reader = (write_store fuel).reader in
          (r.0 ≡ ok id)
          × ((get_node bincode trees reader id r.1).0
              ≡ ok (some (record { id = id; label = label; properties = props })))
          × ((get_node bincode trees reader other r.1).0
              ≡ (get_node bincode trees reader other t).0)
          × ((reader.get trees.label_index_tree (encode_label_key (hash_str label) id) r.1).0
              ≡ ok (some []))
          × ((reader.get trees.meta_tree next_node_id r.1).0
              ≡ ok (some (to_le_bytes 8 ((id + 1) % 2 ^ 64))))
    create_node-adds label props bytes t id other (ek, em, en, el) s fm fn fl counter
          (bound, bound', new) made back short =
        let c =
          create_node-Created label props bytes t id (ek, em, en, el) s fm fn fl counter bound made
            short in
        let t' = (create_node bincode trees (write_store fuel) label props t).1 in
        let node = node_at {F = F} bincode trees (write_store fuel).reader in
        let label_key = encode_label_key (hash_str label) id in
        (
          c.result,
          get_node-InTxn bincode trees fuel k catalog catalog_root hn (c.nodes') id t' ek en
                (c.has.in2)
              ∙ ap (node id) (c.finds (id_key id) ∙ at_key (id_key id) _ _)
              ∙ ground (arith, back),
          get_node-InTxn bincode trees fuel k catalog catalog_root hn (c.nodes') other t' ek en
                (c.has.in2)
              ∙ ap (node other) (
                  c.finds (id_key other)
                  ∙ not_at_key (id_key id) (id_key other) _ _
                      (id_key-apart id other bound bound' new))
              ∙ sym (
                  get_node-InTxn bincode trees fuel k catalog catalog_root hn nodes other t ek en
                    (s.in2)),
          get-value bincode trees fuel k catalog catalog_root trees.label_index_tree hl (c.labels')
              label_key t' _ ek el (omega (arith, length-encode_label_key (hash_str label) id))
              (c.has.in3) (c.indexed),
          get-value bincode trees fuel k catalog catalog_root trees.meta_tree hm (c.metas')
              next_node_id t' _ ek em (omega arith) (c.has.in1) (c.counts),
        )
