-- ===== src/BTree/Tree/Examples.antt =====
-- A tree of two leaves below a root, on disk.
use gemgraph.Base.{ℕ, ◌≡◌, refl, List, [], ◌∷◌, none, some, get_elem?, ok, arith}
use gemgraph.Base.Assoc.{lookup}
use gemgraph.Bytes.Order.{compare_bytes}
use gemgraph.Pager.Page.{read_page_header, btree_internal}
use gemgraph.Pager.Disk.{put, get_elem?-put_self, get_elem?-put_ne}
use gemgraph.Pager.Store.{Pager}
use gemgraph.BTree.Leaf.{LeafEntry, LeafNode, used, search_entries, search, upsert}
use gemgraph.BTree.Leaf.Page.{to_page as leaf_to_page}
use gemgraph.BTree.Leaf.Refinement.{find}
use gemgraph.BTree.Internal.{used as branch_used}
use gemgraph.BTree.Internal.Page.{to_page as branch_to_page, from_page as branch_from_page}
use gemgraph.BTree.Internal.Page.RoundTrip.{from_page-to_page_branch}
use gemgraph.BTree.Tree.{BTree, get, insert, delete, range}
use gemgraph.BTree.Tree.Model.{Tree, node_of, flatten, OnDisk, Holds, descend}
use gemgraph.BTree.Tree.Reads.{Reads}
use gemgraph.BTree.Tree.Lookup.{get-finds}
use gemgraph.BTree.Tree.Scan.{within, range-within}
use gemgraph.BTree.Tree.Update.{Stored, Binds}
use gemgraph.BTree.Tree.Update.Insert.{insert-Binds}
use gemgraph.BTree.Tree.Update.Delete.{is_some, delete-Binds}

abbrev entry : ℕ → ℕ → LeafEntry
entry k v = record { key = k ∷ []; value = v ∷ [] }

abbrev left_leaf : LeafNode
left_leaf = record { page_id = 2; entries = entry 10 1 ∷ entry 20 2 ∷ [] }

abbrev right_leaf : LeafNode
right_leaf = record { page_id = 3; entries = entry 30 3 ∷ [] }

abbrev tree : Tree 1
tree = record {
  page_id = 4;
  children = record { subtree = left_leaf; key = 30 ∷ [] } ∷ [];
  last = right_leaf;
}

abbrev pages : List (List ℕ)
pages =
    put 4 (branch_to_page (node_of 0 tree))
      (put 3 (leaf_to_page right_leaf) (put 2 (leaf_to_page left_leaf) []))

abbrev empty_cache : Pager
empty_cache = record {
  file = record { pages = pages; faults = [] };
  meta = record {
    magic = [];
    version = 1;
    root_page_id = 0;
    next_page_id = 5;
    txn_id = 0;
    wal_offset = 0;
    checksum = 0;
  };
  meta_slot = 0;
  freelist = [];
  freelist_head = 0;
  cache = [];
  lru_order = [];
  cache_capacity = 16;
}

abbrev state : BTree
state = record { pager = empty_cache; root = 4 }

left_there : get_elem? pages 2 ≡ some (leaf_to_page left_leaf)
left_there =
    get_elem?-put_ne 4 2 _ _ _ (λ e. omega arith)
      (get_elem?-put_ne 3 2 _ _ _ (λ e. omega arith) (get_elem?-put_self 2 _ []))

right_there : get_elem? pages 3 ≡ some (leaf_to_page right_leaf)
right_there = get_elem?-put_ne 4 3 _ _ _ (λ e. omega arith) (get_elem?-put_self 3 _ _)

tree-OnDisk : OnDisk pages 1 tree
unfolding used branch_used
tree-OnDisk = (
  (omega arith, omega arith),
  omega arith,
  get_elem?-put_self 4 _ _,
  (((omega arith, omega arith), omega arith, left_there), tt),
  ((omega arith, omega arith), omega arith, right_there),
)

tree-Holds : Holds 1 tree state
unfolding compare_bytes lookup
tree-Holds = record {
  root = refl;
  coherent = record { at_page = λ id page two e. absurd (cc e) };
  on_disk = tree-OnDisk;
  ordered = (((refl, tt), (tt, tt)), (refl, (refl, tt)), (refl, tt), (tt, tt));
}

tree-Stored : Stored 1 tree state
tree-Stored = record {
  holds = tree-Holds;
  distinct = ((omega arith, (omega arith, tt)), ((omega arith, tt), (tt, tt)));
  no_faults = refl;
}

key_20 : List ℕ
key_20 = 20 ∷ []

get-finds_example : Reads state (find (20 ∷ []) (flatten 1 tree)) (get 2 (20 ∷ []) state)
get-finds_example = get-finds 2 1 (20 ∷ []) tree state (omega arith) (omega arith) tree-Holds

range-within_example :
    Reads state (within (20 ∷ []) (30 ∷ []) (flatten 1 tree)) (range 2 (20 ∷ []) (30 ∷ []) state)
range-within_example = range-within 2 1 (20 ∷ []) (30 ∷ []) tree state (omega arith) tree-Holds

insert-Binds_example :
    Binds 1 tree state (25 ∷ []) (some (7 ∷ [])) tt (insert 2 (25 ∷ []) (7 ∷ []) state)
unfolding upsert search search_entries descend used compare_bytes
insert-Binds_example =
    insert-Binds 2 1 (25 ∷ []) (7 ∷ []) tree state (omega arith) (omega arith) (omega arith)
      tree-Stored (omega arith)

delete-Binds_example :
    Binds 1 tree state
      (30 ∷ [])
      none
      (is_some (find (30 ∷ []) (flatten 1 tree)))
      (delete 2 (30 ∷ []) state)
delete-Binds_example = delete-Binds 2 1 (30 ∷ []) tree state (omega arith) (omega arith) tree-Stored

from_page-to_page_branch_example :
    (branch_from_page (branch_to_page (node_of 0 tree)) ≡ ok (node_of 0 tree))
    × (read_page_header (branch_to_page (node_of 0 tree)) ≡ (btree_internal, 4))
unfolding branch_used
from_page-to_page_branch_example =
    from_page-to_page_branch (node_of 0 tree) (omega arith) (omega arith) (omega arith)
      (omega arith, tt)
