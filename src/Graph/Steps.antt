-- ===== src/Graph/Steps.antt =====
-- The calls of crates/gemgraph-graph/src/write_txn.rs on a write transaction of
-- crates/gemgraph-mvcc/src/txn.rs, one after the other.
use gemgraph.Base.{
  ℕ, ◌≡◌, ◌≢◌, ◌≤◌, ◌<◌, ◌+◌, ◌%◌, ◌^◌, refl, ap, ◌∙◌, arith, false, List, [], length, Option, some,
  if◌then◌else◌, Result, ok, Method, and_then, and_then-ok,
}
use gemgraph.Bytes.Le.{to_le_bytes, length-to_le_bytes, from_le_bytes-to_le_bytes}
use gemgraph.Bytes.Be.{length-to_be_bytes, compare_bytes-to_be_bytes}
use gemgraph.Bytes.Buffer.{length-zeros, length-write_at}
use gemgraph.Bytes.Order.{eq_bytes, compare_bytes_refl}
use gemgraph.BTree.Leaf.Refinement.{find}
use gemgraph.BTree.Tree.Model.{Tree, flatten}
use gemgraph.Mvcc.{MvccFailure}
use gemgraph.Mvcc.WriteTxn.{WriteTxn, get, insert}
use gemgraph.Mvcc.InTxn.{InTxn}
use gemgraph.Mvcc.Trees.{get-TxnReads}
use gemgraph.Graph.Keys.{hash_str, encode_label_key}
use gemgraph.Graph.Types.{Value, Node, GraphFailure}
use gemgraph.Graph.Store.{Bincode, of_bincode, of_mvcc, from_mvcc, write_store}
use gemgraph.Graph.Read.{Trees, id_key, node_at, get_node}
use gemgraph.Graph.Write.{next_node_id, counter_of, alloc_id, alloc_node_id, create_node}

pub length-encode_label_key : (h id : ℕ) → length (encode_label_key h id) ≡ 12
unfolding encode_label_key
length-encode_label_key h id = length-write_at 4 _ _ ∙ length-write_at 0 _ _ ∙ length-zeros 12

counter_of-to_le_bytes : (id : ℕ) → id < 2 ^ 64 → counter_of (some (to_le_bytes 8 id)) ≡ ok id
counter_of-to_le_bytes id h =
    ground (arith, length-to_le_bytes 8 id, from_le_bytes-to_le_bytes 8 id h)

-- Ids that fit 64 bits are told apart by their keys.
pub id_key-apart :
    (a b : ℕ) → a < 2 ^ 64 → b < 2 ^ 64 → b ≢ a → eq_bytes (id_key a) (id_key b) ≡ false
id_key-apart a b h k n = ground (arith, compare_bytes-to_be_bytes 8 a b h k)

-- What an insertion holds at its own key and at another one.
pub at_key : (key : List ℕ) (v w : Option (List ℕ)) → (if eq_bytes key key then v else w) ≡ v
at_key key v w = ground (arith, compare_bytes_refl key)

pub not_at_key :
    (key other : List ℕ) (v w : Option (List ℕ))
    → eq_bytes key other ≡ false
    → (if eq_bytes key other then v else w) ≡ w
not_at_key key other v w h = rw h refl

pub and_then-at :
    {A B : Type 0} (r : Result A GraphFailure × WriteTxn)
    (next : A → Method WriteTxn GraphFailure B) (a : A) (t : WriteTxn)
    → r ≡ (ok a, t)
    → and_then r next ≡ next a t
and_then-at r next a t h = ap (λ (x : Result _ GraphFailure × WriteTxn). and_then x next) h

-- What follows a call of the transaction that succeeds.
pub from_mvcc-then :
    {A B : Type 0} (m : Method WriteTxn MvccFailure A) (t : WriteTxn) (a : A)
    (next : A → Method WriteTxn GraphFailure B)
    → (m t).0 ≡ ok a
    → and_then (from_mvcc m t) next ≡ next a (m t).1
from_mvcc-then m t a next h = and_then-ok (from_mvcc m t) next a (ap of_mvcc h)

module _ {F : Type 0} (bincode : Bincode F) (trees : Trees) (fuel : ℕ) where
  pub alloc_id-runs :
      (key : List ℕ) (t : WriteTxn) (id : ℕ)
      → let t1 = (get fuel trees.meta_tree key t).1 in
        let r = insert fuel trees.meta_tree key (to_le_bytes 8 ((id + 1) % 2 ^ 64)) t1 in
        id < 2 ^ 64
        → (get fuel trees.meta_tree key t).0 ≡ ok (some (to_le_bytes 8 id))
        → r.0 ≡ ok tt
        → alloc_id bincode trees (write_store fuel) key t ≡ (ok id, r.1)
  alloc_id-runs key t id bound found done =
      let t1 = (get fuel trees.meta_tree key t).1 in
      from_mvcc-then (get fuel trees.meta_tree key) t (some (to_le_bytes 8 id)) _ found
      ∙ and_then-ok (counter_of (some (to_le_bytes 8 id)), t1) _ id
          (counter_of-to_le_bytes id bound)
      ∙ from_mvcc-then (insert fuel trees.meta_tree key (to_le_bytes 8 ((id + 1) % 2 ^ 64))) t1 tt _
          done

  pub create_node-runs :
      (label : List ℕ) (props : List (List ℕ × Value F)) (bytes : List ℕ) (t t2 : WriteTxn) (id : ℕ)
      → let r3 = insert fuel trees.nodes_tree (id_key id) bytes t2 in
        let r4 =
          insert fuel trees.label_index_tree (encode_label_key (hash_str label) id) [] r3.1 in
        alloc_id bincode trees (write_store fuel) next_node_id t ≡ (ok id, t2)
        → bincode.serialize_node (record { label = label; props = props }) ≡ some bytes
        → r3.0 ≡ ok tt
        → r4.0 ≡ ok tt
        → create_node bincode trees (write_store fuel) label props t ≡ (ok id, r4.1)
  unfolding create_node alloc_node_id
  create_node-runs label props bytes t t2 id allocated made done3 done4 =
      let t3 = (insert fuel trees.nodes_tree (id_key id) bytes t2).1 in
      let label_key = encode_label_key (hash_str label) id in
      and_then-at (alloc_id bincode trees (write_store fuel) next_node_id t) _ id t2 allocated
      ∙ and_then-at
          (of_bincode (bincode.serialize_node (record { label = label; props = props })), t2) _
          bytes t2 (ap (λ (x : Option (List ℕ)). (of_bincode x, t2)) made)
      ∙ ap (λ (x : Result (Unit {0}) GraphFailure × WriteTxn). and_then x (λ _ t'. (ok id, t')))
          (from_mvcc-then (insert fuel trees.nodes_tree (id_key id) bytes) t2 tt
            (λ _. from_mvcc (insert fuel trees.label_index_tree label_key [])) done3)
      ∙ from_mvcc-then (insert fuel trees.label_index_tree label_key []) t3 tt (λ _ t'. (ok id, t'))
          done4

  pub get_node-InTxn :
      (k : ℕ) (catalog : Tree k) (catalog_root h : ℕ) (tree : Tree h) (id : ℕ) (t : WriteTxn)
      → k < fuel
      → h < fuel
      → InTxn k catalog catalog_root trees.nodes_tree h tree t
      → (get_node bincode trees (write_store fuel).reader id t).0
        ≡ node_at bincode trees (write_store fuel).reader id (find (id_key id) (flatten h tree))
  unfolding get_node
  get_node-InTxn k catalog catalog_root h tree id t enough enough' s =
      let reads =
        get-TxnReads fuel k catalog catalog_root trees.nodes_tree h tree enough (id_key id) t
          enough' (omega (arith, length-to_be_bytes 8 id)) s in
      ap (λ (r : Result (Option (Node F)) GraphFailure × WriteTxn). r.0)
        (from_mvcc-then (get fuel trees.nodes_tree (id_key id)) t _ _
          (ap (λ (r : Result (Option (List ℕ)) MvccFailure × WriteTxn). r.0) reads.outcome))

  pub get-value :
      (k : ℕ) (catalog : Tree k) (catalog_root tree_id h : ℕ) (tree : Tree h) (key : List ℕ)
      (t : WriteTxn) (value : Option (List ℕ))
      → k < fuel
      → h < fuel
      → length key ≤ 1000
      → InTxn k catalog catalog_root tree_id h tree t
      → find key (flatten h tree) ≡ value
      → ((write_store fuel).reader.get tree_id key t).0 ≡ ok value
  get-value k catalog catalog_root tree_id h tree key t value enough enough' short s at =
      let reads =
        get-TxnReads fuel k catalog catalog_root tree_id h tree enough key t enough' short s in
      ap of_mvcc
        (ap (λ (r : Result (Option (List ℕ)) MvccFailure × WriteTxn). r.0) reads.outcome ∙ ap ok at)
