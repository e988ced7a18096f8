-- ===== src/Graph/CreateExample.antt =====
-- A graph of one node on five pages: a node is created, and a property of the first one is set.
use gemgraph.Base.{
  ℕ, zero, suc, ◌≡◌, ◌≢◌, ◌≤◌, ◌<◌, refl, arith, List, [], ◌∷◌, Option, none, some, get_elem?, ok,
  ◌+◌, ◌%◌, ◌^◌, if◌then◌else◌, true,
}
use gemgraph.Base.Assoc.{lookup}
use gemgraph.Bytes.Le.{to_le_bytes}
use gemgraph.Bytes.Be.{to_be_bytes}
use gemgraph.Bytes.Order.{compare_bytes, eq_bytes}
use gemgraph.Bytes.Buffer.{zeros, write_at}
use gemgraph.Pager.Disk.{put, get_elem?-put_self, get_elem?-put_ne}
use gemgraph.Pager.Store.{Pager}
use gemgraph.Pager.Store.Coherence.{IsCoherent}
use gemgraph.Wal.Writer.{create}
use gemgraph.BTree.Leaf.{LeafNode, used, search_entries, search, upsert}
use gemgraph.BTree.Leaf.Page.{to_page}
use gemgraph.BTree.Leaf.Sorted.{IsSorted}
use gemgraph.BTree.Leaf.Refinement.{find}
use gemgraph.BTree.Tree.{open_root}
use gemgraph.BTree.Tree.Model.{descend, LeafFits}
use gemgraph.Mvcc.Database.{Database}
use gemgraph.Mvcc.WriteTxn.{WriteTxn, write_txn}
use gemgraph.Mvcc.InTxn.{InTxn, write_txn-InTxn}
use gemgraph.Mvcc.Three.{HasThree}
use gemgraph.Graph.Keys.{hash_loop, hash_str, encode_label_key}
use gemgraph.Graph.Types.{Value, bool_prop, NodeRecord, Node, property, set_property}
use gemgraph.Graph.Store.{Bincode, write_store}
use gemgraph.Graph.Read.{Trees, get_node}
use gemgraph.Graph.Write.{next_node_id, create_node, set_node_property}
use gemgraph.Graph.Create.{create_node-adds}
use gemgraph.Graph.Properties.{set_node_property-sets}

-- The next id is 2.
abbrev metas : LeafNode
metas = record {
  page_id = 2;
  entries = record { key = next_node_id; value = 2 ∷ 0 ∷ 0 ∷ 0 ∷ 0 ∷ 0 ∷ 0 ∷ 0 ∷ [] } ∷ [];
}

-- Node 1 has the label "a" and no properties.
abbrev nodes : LeafNode
nodes = record {
  page_id = 4;
  entries = record { key = 0 ∷ 0 ∷ 0 ∷ 0 ∷ 0 ∷ 0 ∷ 0 ∷ 1 ∷ []; value = 0 ∷ 97 ∷ [] } ∷ [];
}

-- The hash of "a" is 228, 12, 41, 44.
abbrev labels : LeafNode
labels = record {
  page_id = 5;
  entries =
      record { key = 228 ∷ 12 ∷ 41 ∷ 44 ∷ 0 ∷ 0 ∷ 0 ∷ 0 ∷ 0 ∷ 0 ∷ 0 ∷ 1 ∷ []; value = [] } ∷ [];
}

abbrev catalog : LeafNode
catalog = record {
  page_id = 3;
  entries =
      record { key = 1 ∷ 0 ∷ 0 ∷ 0 ∷ []; value = 2 ∷ 0 ∷ 0 ∷ 0 ∷ [] }
      ∷ record { key = 2 ∷ 0 ∷ 0 ∷ 0 ∷ []; value = 4 ∷ 0 ∷ 0 ∷ 0 ∷ [] }
      ∷ record { key = 5 ∷ 0 ∷ 0 ∷ 0 ∷ []; value = 5 ∷ 0 ∷ 0 ∷ 0 ∷ [] }
      ∷ [];
}

abbrev pages : List (List ℕ)
pages =
    put 3 (to_page catalog)
      (put 5 (to_page labels) (put 4 (to_page nodes) (put 2 (to_page metas) [])))

abbrev disk_pager : Pager
disk_pager = record {
  file = record { pages = pages; faults = [] };
  meta = record {
    magic = [];
    version = 1;
    root_page_id = 3;
    next_page_id = 6;
    txn_id = 0;
    wal_offset = 0;
    checksum = 0;
  };
  meta_slot = 0;
  freelist = [];
  freelist_head = 0;
  cache = [];
  lru_order = [];
  cache_capacity = 16;
}

abbrev db : Database
db = record { pager = disk_pager; wal = create []; current_root = 3; current_txn_id = 0 }

abbrev txn : WriteTxn
txn = write_txn db

disk_pager-IsCoherent : IsCoherent disk_pager
unfolding lookup
disk_pager-IsCoherent = record { at_page = λ id page two e. absurd (cc e) }

metas_there : get_elem? pages 2 ≡ some (to_page metas)
metas_there =
    get_elem?-put_ne 3 2 _ _ _ (λ e. omega arith)
      (get_elem?-put_ne 5 2 _ _ _ (λ e. omega arith)
        (get_elem?-put_ne 4 2 _ _ _ (λ e. omega arith) (get_elem?-put_self 2 _ [])))

nodes_there : get_elem? pages 4 ≡ some (to_page nodes)
nodes_there =
    get_elem?-put_ne 3 4 _ _ _ (λ e. omega arith)
      (get_elem?-put_ne 5 4 _ _ _ (λ e. omega arith) (get_elem?-put_self 4 _ _))

labels_there : get_elem? pages 5 ≡ some (to_page labels)
labels_there = get_elem?-put_ne 3 5 _ _ _ (λ e. omega arith) (get_elem?-put_self 5 _ _)

one_leaf-InTxn :
    (tree_id : ℕ) (leaf : LeafNode)
    → (2 ≤ leaf.page_id) × (leaf.page_id < 2 ^ 32)
    → LeafFits leaf
    → get_elem? pages leaf.page_id ≡ some (to_page leaf)
    → IsSorted leaf.entries
    → find (to_le_bytes 4 tree_id) catalog.entries ≡ some (to_le_bytes 4 leaf.page_id)
    → 3 ≢ leaf.page_id
    → InTxn 0 catalog 3 tree_id 0 leaf txn
unfolding used open_root compare_bytes
one_leaf-InTxn tree_id leaf bounds fits there sorted named apart =
    write_txn-InTxn 0 catalog 3 tree_id 0 leaf db refl (record {
      catalog_held = record {
        root = refl;
        coherent = disk_pager-IsCoherent;
        on_disk = ((omega arith, omega arith), omega arith, get_elem?-put_self 3 _ _);
        ordered = ((refl, (refl, tt)), ((refl, tt), (tt, tt)));
      };
      tree_stored = record {
        holds = record {
          root = refl;
          coherent = disk_pager-IsCoherent;
          on_disk = (bounds, fits, there);
          ordered = sorted;
        };
        distinct = (tt, tt);
        no_faults = refl;
      };
      named = named;
      apart = ((apart, tt), tt);
    })

metas-InTxn : InTxn 0 catalog 3 1 0 metas txn
unfolding used compare_bytes find to_le_bytes
metas-InTxn =
    one_leaf-InTxn 1 metas (omega arith, omega arith) (omega arith) metas_there (tt, tt) refl
      (λ e. omega arith)

nodes-InTxn : InTxn 0 catalog 3 2 0 nodes txn
unfolding used compare_bytes find to_le_bytes
nodes-InTxn =
    one_leaf-InTxn 2 nodes (omega arith, omega arith) (omega arith) nodes_there (tt, tt) refl
      (λ e. omega arith)

labels-InTxn : InTxn 0 catalog 3 5 0 labels txn
unfolding used compare_bytes find to_le_bytes
labels-InTxn =
    one_leaf-InTxn 5 labels (omega arith, omega arith) (omega arith) labels_there (tt, tt) refl
      (λ e. omega arith)

txn-HasThree : HasThree 0 catalog 3 1 0 metas 2 0 nodes 5 0 labels txn
txn-HasThree = record {
  in1 = metas-InTxn;
  in2 = nodes-InTxn;
  in3 = labels-InTxn;
  ids = ((λ e. omega arith), (λ e. omega arith), (λ e. omega arith));
  apart = (
    (((λ e. omega arith), tt), tt),
    (((λ e. omega arith), tt), tt),
    (((λ e. omega arith), tt), tt),
  );
}

abbrev trees : Trees
trees = record {
  nodes_tree = 2;
  edges_tree = 3;
  adjacency_tree = 4;
  label_index_tree = 5;
  meta_tree = 1;
}

-- A format for nodes without properties, and for those with one flag of a name of one byte.
abbrev write_fields : List ℕ → List (List ℕ × Value ℕ) → Option (List ℕ)
write_fields label [] = some (0 ∷ label)
write_fields label (((k ∷ []), bool_prop true) ∷ []) = some (1 ∷ k ∷ label)
write_fields label props = none

abbrev read_flag : List ℕ → Option (NodeRecord ℕ)
read_flag [] = none
read_flag (k ∷ label) = some (record { label = label; props = ((k ∷ []), bool_prop true) ∷ [] })

abbrev read_node : List ℕ → Option (NodeRecord ℕ)
read_node [] = none
read_node (zero ∷ label) = some (record { label = label; props = [] })
read_node (suc n ∷ bytes) = read_flag bytes

abbrev one_flag : Bincode ℕ
one_flag = record {
  serialize_node = λ rec. write_fields rec.label rec.props;
  deserialize_node = read_node;
  serialize_edge = λ rec. none;
  deserialize_edge = λ bytes. none;
}

create_node-adds_example :
    let r = create_node one_flag trees (write_store 1) (98 ∷ []) [] txn in
    let reader = (write_store 1).reader in
    (r.0 ≡ ok 2)
    × ((get_node one_flag trees reader 2 r.1).0
        ≡ ok (some (record { id = 2; label = 98 ∷ []; properties = [] })))
    × ((get_node one_flag trees reader 1 r.1).0 ≡ (get_node one_flag trees reader 1 txn).0)
    × ((reader.get 5 (encode_label_key (hash_str (98 ∷ [])) 2) r.1).0 ≡ ok (some []))
    × ((reader.get 1 next_node_id r.1).0 ≡ ok (some (to_le_bytes 8 ((2 + 1) % 2 ^ 64))))
unfolding upsert search search_entries descend used compare_bytes find to_le_bytes to_be_bytes
    encode_label_key hash_str hash_loop write_at zeros
create_node-adds_example =
    create_node-adds one_flag trees 1 0 catalog 3 0 metas 0 nodes 0 labels (98 ∷ []) []
      (0 ∷ 98 ∷ []) txn 2 1 (omega arith, omega arith, omega arith, omega arith) txn-HasThree
      (omega arith) (omega arith) (omega arith) refl (omega arith, omega arith, λ e. omega arith)
      refl refl (omega arith)

set_node_property-sets_example :
    let r = set_node_property one_flag trees (write_store 1) 1 (107 ∷ []) (bool_prop true) txn in
    let reader = (write_store 1).reader in
    (r.0 ≡ ok tt)
    × ((node : Node ℕ) × ((get_node one_flag trees reader 1 r.1).0 ≡ ok (some node))
        × (node.label ≡ 97 ∷ [])
        × (property (107 ∷ []) node.properties ≡ (
            if eq_bytes (107 ∷ []) (107 ∷ [])
            then some (bool_prop true)
            else property (107 ∷ []) [])))
    × ((get_node one_flag trees reader 9 r.1).0 ≡ (get_node one_flag trees reader 9 txn).0)
unfolding upsert search search_entries descend used compare_bytes find to_be_bytes set_property
set_node_property-sets_example =
    set_node_property-sets one_flag trees 1 0 catalog 3 0 nodes 1 9 (107 ∷ []) (107 ∷ [])
      (bool_prop true) (0 ∷ 97 ∷ []) (1 ∷ 107 ∷ 97 ∷ []) (record { label = 97 ∷ []; props = [] })
      txn (omega arith) (omega arith) nodes-InTxn (omega arith) refl refl refl refl (omega arith)
      (omega arith, omega arith, λ e. omega arith)
