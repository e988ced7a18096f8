-- ===== src/Mvcc/Examples.antt =====
-- A database with a catalog of one leaf and a tree of one leaf.
use gemgraph.Base.{ℕ, ◌≡◌, refl, List, [], ◌∷◌, some, get_elem?, ok, arith}
use gemgraph.Base.Assoc.{lookup}
use gemgraph.Bytes.Le.{to_le_bytes}
use gemgraph.Bytes.Order.{compare_bytes}
use gemgraph.Pager.Disk.{put, get_elem?-put_self, get_elem?-put_ne}
use gemgraph.Pager.Store.{Pager}
use gemgraph.Pager.Store.Coherence.{IsCoherent}
use gemgraph.Wal.Writer.{create}
use gemgraph.BTree.Leaf.{LeafNode, used, search_entries, search, upsert}
use gemgraph.BTree.Leaf.Page.{to_page}
use gemgraph.BTree.Leaf.Refinement.{find}
use gemgraph.BTree.Tree.{open_root}
use gemgraph.BTree.Tree.Model.{descend}
use gemgraph.Mvcc.Database.{Database}
use gemgraph.Mvcc.ReadTxn.{read_txn, get}
use gemgraph.Mvcc.WriteTxn.{write_txn, insert, abort}
use gemgraph.Mvcc.Serves.{Serves, get-Serves}
use gemgraph.Mvcc.InTxn.{write_txn-InTxn}
use gemgraph.Mvcc.Writes.{Written, insert-Written, abort-keeps_insert}

abbrev tree : LeafNode
tree = record { page_id = 2; entries = record { key = 10 ∷ []; value = 1 ∷ [] } ∷ [] }

-- Tree 1 has its root on page 2.
abbrev catalog : LeafNode
catalog = record {
  page_id = 3;
  entries = record { key = 1 ∷ 0 ∷ 0 ∷ 0 ∷ []; value = 2 ∷ 0 ∷ 0 ∷ 0 ∷ [] } ∷ [];
}

abbrev pages : List (List ℕ)
pages = put 3 (to_page catalog) (put 2 (to_page tree) [])

abbrev disk_pager : Pager
disk_pager = record {
  file = record { pages = pages; faults = [] };
  meta = record {
    magic = [];
    version = 1;
    root_page_id = 3;
    next_page_id = 4;
    txn_id = 0;
    wal_offset = 0;
    checksum = 0;
  };
  meta_slot = 0;
  freelist = [];
  freelist_head = 0;
  cache = [];
  lru_order = [];
  cache_capacity = 16;
}

abbrev db : Database
db = record { pager = disk_pager; wal = create []; current_root = 3; current_txn_id = 0 }

disk_pager-IsCoherent : IsCoherent disk_pager
unfolding lookup
disk_pager-IsCoherent = record { at_page = λ id page two e. absurd (cc e) }

tree_there : get_elem? pages 2 ≡ some (to_page tree)
tree_there = get_elem?-put_ne 3 2 _ _ _ (λ e. omega arith) (get_elem?-put_self 2 _ [])

db-Serves : Serves 0 catalog 3 1 0 tree disk_pager
unfolding used open_root compare_bytes find to_le_bytes
db-Serves = record {
  catalog_held = record {
    root = refl;
    coherent = disk_pager-IsCoherent;
    on_disk = ((omega arith, omega arith), omega arith, get_elem?-put_self 3 _ _);
    ordered = (tt, tt);
  };
  tree_stored = record {
    holds = record {
      root = refl;
      coherent = disk_pager-IsCoherent;
      on_disk = ((omega arith, omega arith), omega arith, tree_there);
      ordered = (tt, tt);
    };
    distinct = (tt, tt);
    no_faults = refl;
  };
  named = refl;
  apart = ((omega arith, tt), tt);
}

get-Serves_example :
    ((get 1 (read_txn db) 1 (10 ∷ []) db).0 ≡ ok (find (10 ∷ []) tree.entries))
    × Serves 0 catalog 3 1 0 tree (get 1 (read_txn db) 1 (10 ∷ []) db).1.pager
get-Serves_example =
    get-Serves 1 0 catalog 3 1 0 tree (omega arith) (10 ∷ []) db (omega arith) (omega arith) refl
      db-Serves

insert-Written_example :
    Written 0 catalog 3 1 0 tree
      (write_txn db)
      (20 ∷ [])
      (some (7 ∷ []))
      tt
      (insert 1 1 (20 ∷ []) (7 ∷ []) (write_txn db))
unfolding upsert search search_entries descend used compare_bytes
insert-Written_example =
    insert-Written 1 0 catalog 3 1 0 tree (omega arith) (20 ∷ []) (7 ∷ []) (write_txn db)
      (omega arith) (omega arith) (omega arith)
      (write_txn-InTxn 0 catalog 3 1 0 tree db refl db-Serves) (omega arith)

abbrev aborted : Database
aborted = abort (insert 1 1 (20 ∷ []) (7 ∷ []) (write_txn db)).1

abort-keeps_insert_example : (get 1 (read_txn aborted) 1 (20 ∷ []) aborted).0 ≡ ok (some (7 ∷ []))
unfolding upsert search search_entries descend used compare_bytes
abort-keeps_insert_example =
    abort-keeps_insert 1 0 catalog 3 1 0 tree (20 ∷ []) (7 ∷ []) db (omega arith) (omega arith)
      (omega arith) (omega arith) refl db-Serves (omega arith)
