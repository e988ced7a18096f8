-- ===== src/Graph/Properties.antt =====
-- `set_node_property` of crates/gemgraph-graph/src/write_txn.rs in a write transaction of
-- crates/gemgraph-mvcc/src/txn.rs.
use gemgraph.Base.{
  ℕ, ◌≡◌, ◌≢◌, ◌≤◌, ◌<◌, ◌^◌, refl, sym, ap, ◌∙◌, arith, Bool, true, false, List, [], ◌∷◌, length,
  Option, some, if◌then◌else◌, Result, ok,
}
use gemgraph.Bytes.Be.{length-to_be_bytes}
use gemgraph.Bytes.Order.{eq_bytes, eq_bytes_iff}
use gemgraph.BTree.Leaf.{upsert}
use gemgraph.BTree.Leaf.Refinement.{find}
use gemgraph.BTree.Tree.Model.{Tree, flatten, LeafFits, descend}
use gemgraph.Mvcc.{MvccFailure}
use gemgraph.Mvcc.WriteTxn.{WriteTxn, get, insert}
use gemgraph.Mvcc.InTxn.{InTxn}
use gemgraph.Mvcc.Writes.{insert-Written}
use gemgraph.Mvcc.Trees.{get-TxnReads, TxnReads-InTxn}
use gemgraph.Graph.Types.{Value, NodeRecord, Node, GraphFailure, property, set_property}
use gemgraph.Graph.Store.{Bincode, of_bincode, of_mvcc, from_mvcc, write_store}
use gemgraph.Graph.Read.{Trees, id_key, node_at, get_node}
use gemgraph.Graph.Write.{node_or, check_node, set_node_property}
use gemgraph.Graph.Steps.{
  id_key-apart, at_key, not_at_key, and_then-at, from_mvcc-then, get_node-InTxn,
}

if_twice :
    {A : Type 0} (c d : Bool) (x y z : A)
    → d ≡ c
    → (if c then x else z) ≡ (if c then x else (if d then y else z))
if_twice true d x y z e = refl
if_twice false d x y z e = rw e refl

if_swap :
    {A : Type 0} (c d : Bool) (x y z : A)
    → (c ≡ true → d ≡ true → ⊥)
    → (if d then y else (if c then x else z)) ≡ (if c then x else (if d then y else z))
if_swap true true x y z n = absurd (n refl refl)
if_swap true false x y z n = refl
if_swap false d x y z n = refl

true-false : true ≡ false → ⊥
true-false e = cc

property-set_property :
    {F : Type 0} (key name : List ℕ) (value : Value F) (props : List (List ℕ × Value F))
    → property name (set_property key value props)
      ≡ (if eq_bytes key name then some value else property name props)
unfolding property set_property
property-set_property key name value [] = refl
property-set_property {F} key name value ((k, v) ∷ props) =
    by_test (eq_bytes k key) refl (property-set_property key name value props)
  where
    by_test :
        (b : Bool)
        → eq_bytes k key ≡ b
        → property name (set_property key value props)
          ≡ (if eq_bytes key name then some value else property name props)
        → property name (if b then (key, value) ∷ props else (k, v) ∷ set_property key value props)
          ≡ (if eq_bytes key name
              then some value
              else (if eq_bytes k name then some v else property name props))
    by_test true e rest =
        if_twice (eq_bytes key name) (eq_bytes k name) (some value) (some v) (property name props)
          (ap (λ x. eq_bytes x name) ((eq_bytes_iff k key).0 e))
    by_test false e rest = rw rest (
        if_swap (eq_bytes key name) (eq_bytes k name) (some value) (some v) (property name props)
          (λ p q. true-false (
            sym (
              (eq_bytes_iff k key).1
                ((eq_bytes_iff k name).0 q ∙ sym ((eq_bytes_iff key name).0 p)))
            ∙ e)))

module _ {F : Type 0} (bincode : Bincode F) (trees : Trees) (fuel : ℕ) where
  abbrev changed : List ℕ → Value F → NodeRecord F → NodeRecord F
  changed key value rec = record { label = rec.label; props = set_property key value rec.props }

  set_node_property-runs :
      (id : ℕ) (key : List ℕ) (value : Value F) (bytes new_bytes : List ℕ) (rec : NodeRecord F)
      (t : WriteTxn)
      → (get fuel trees.nodes_tree (id_key id) t).0 ≡ ok (some bytes)
      → bincode.deserialize_node bytes ≡ some rec
      → bincode.serialize_node (changed key value rec) ≡ some new_bytes
      → set_node_property bincode trees (write_store fuel) id key value t
        ≡ from_mvcc
            (insert fuel trees.nodes_tree (id_key id) new_bytes)
            (get fuel trees.nodes_tree (id_key id) t).1
  unfolding set_node_property
  set_node_property-runs id key value bytes new_bytes rec t found read made =
      let t1 = (get fuel trees.nodes_tree (id_key id) t).1 in
      and_then-at (check_node bincode trees (write_store fuel) id t) _ bytes t1 (
        from_mvcc-then (get fuel trees.nodes_tree (id_key id)) t (some bytes)
          (λ found t'. (node_or id found, t')) found)
      ∙ and_then-at (of_bincode (bincode.deserialize_node bytes), t1) _ rec t1
          (ap (λ (x : Option (NodeRecord F)). (of_bincode x, t1)) read)
      ∙ and_then-at (of_bincode (bincode.serialize_node (changed key value rec)), t1) _ new_bytes t1
          (ap (λ (x : Option (List ℕ)). (of_bincode x, t1)) made)

  -- A property of a node is set in a write transaction that has a catalog and the tree of the
  -- nodes, which the catalog names and the transaction by no other root, where no page is in both
  -- or twice in the tree, with fuel for the levels of both, on a device without faults and with a
  -- coherent cache. The tree has the node, its bytes deserialize, the changed record serializes
  -- to at most 1,000 bytes that deserialize to it, and the leaf with these fits its page. The
  -- call returns Ok; the node is read back with its label, with the value at the key and at any
  -- other name what it had there, and any other id reads as before, where both are below 2^64.
  pub set_node_property-sets :
      (k : ℕ) (catalog : Tree k) (catalog_root h : ℕ) (tree : Tree h) (id other : ℕ)
      (key name : List ℕ) (value : Value F) (bytes new_bytes : List ℕ) (rec : NodeRecord F)
      (t : WriteTxn)
      → k < fuel
      → h < fuel
      → InTxn k catalog catalog_root trees.nodes_tree h tree t
      → LeafFits (upsert (id_key id) new_bytes (descend h (id_key id) tree))
      → find (id_key id) (flatten h tree) ≡ some bytes
      → bincode.deserialize_node bytes ≡ some rec
      → bincode.serialize_node
          (record { label = rec.label; props = set_property key value rec.props })
        ≡ some new_bytes
      → bincode.deserialize_node new_bytes
        ≡ some (record { label = rec.label; props = set_property key value rec.props })
      → length new_bytes ≤ 1000
      → (id < 2 ^ 64) × (other < 2 ^ 64) × (other ≢ id)
      → let r = set_node_property bincode trees (write_store fuel) id key value t in
        let reader = (write_store fuel).reader in
        (r.0 ≡ ok tt)
        × ((node : Node F) × ((get_node bincode trees reader id r.1).0 ≡ ok (some node))
            × (node.label ≡ rec.label)
            × (property name node.properties
                ≡ (if eq_bytes key name then some value else property name rec.props)))
        × ((get_node bincode trees reader other r.1).0 ≡ (get_node bincode trees reader other t).0)
  set_node_property-sets k catalog catalog_root h tree id other key name value bytes new_bytes rec t
        ek eh s fits found read made back short (bound, bound', new) =
      let short_id : length (id_key id) ≤ 1000 = omega (arith, length-to_be_bytes 8 id) in
      let reads =
        get-TxnReads fuel k catalog catalog_root trees.nodes_tree h tree ek (id_key id) t eh
          short_id s in
      let t1 = (get fuel trees.nodes_tree (id_key id) t).1 in
      let w =
        insert-Written fuel k catalog catalog_root trees.nodes_tree h tree ek (id_key id) new_bytes
          t1 eh short_id short
          (TxnReads-InTxn k catalog catalog_root trees.nodes_tree h tree t _ _ reads s) fits in
      let node = node_at {F = F} bincode trees (write_store fuel).reader in
      let reader = (write_store fuel).reader in
      let t2 = (insert fuel trees.nodes_tree (id_key id) new_bytes t1).1 in
      let runs =
        set_node_property-runs id key value bytes new_bytes rec t
          (ap (λ (r : Result (Option (List ℕ)) MvccFailure × WriteTxn). r.0) reads.outcome
            ∙ ap ok found)
          read made in
      let after : (set_node_property bincode trees (write_store fuel) id key value t).1 ≡ t2 =
        ap (λ (r : Result (Unit {0}) GraphFailure × WriteTxn). r.1) runs in
      let read_at : ℕ → WriteTxn → Result (Option (Node F)) GraphFailure =
        λ i t'. (get_node bincode trees reader i t').0 in
      (
        ap (λ (r : Result (Unit {0}) GraphFailure × WriteTxn). r.0) runs ∙ ap of_mvcc w.result,
        (
          record { id = id; label = rec.label; properties = set_property key value rec.props },
          ap (read_at id) after
              ∙ get_node-InTxn bincode trees fuel k catalog catalog_root h (w.tree') id t2 ek eh
                  w.in_txn
              ∙ ap (node id) (w.finds (id_key id) ∙ at_key (id_key id) _ _)
              ∙ ground (arith, back),
          refl,
          property-set_property key name value rec.props,
        ),
        ap (read_at other) after
            ∙ get_node-InTxn bincode trees fuel k catalog catalog_root h (w.tree') other t2 ek eh
                w.in_txn
            ∙ ap (node other) (
                w.finds (id_key other)
                ∙ not_at_key (id_key id) (id_key other) _ _
                    (id_key-apart id other bound bound' new))
            ∙ sym (get_node-InTxn bincode trees fuel k catalog catalog_root h tree other t ek eh s),
      )
