-- ===== src/BTree/Tree.antt =====
-- crates/gemgraph-btree/src/tree.rs: `BTree`, lookups, scans and updates over the pages of a pager.
-- A descent takes fuel, one for each level: on a cycle of pages the source does not return.
pub mod Model
pub mod Order
pub mod Replace
pub mod Scan
pub mod Update
mod Examples
pub mod Lookup
pub mod Reads
use gemgraph.Base.{
  ℕ, zero, suc, ◌+◌, Bool, true, false, ◌&&◌, List, [], ◌∷◌, ◌++◌, Option, none, some, length,
  if◌then◌else◌, ltb, Result, ok, err, Method, and_then, ◌>>=◌, ◌>>◌, pure, lift,
}
use gemgraph.Bytes.Order.{le_bytes, lt_bytes}
use gemgraph.Pager.Page.{PageType, btree_leaf, btree_internal, read_page_header}
use gemgraph.Pager.Disk.{PagerError}
use gemgraph.Pager.Store.{Pager, read_page, write_page, alloc_page}
use gemgraph.BTree.Leaf.{
  LeafEntry, LeafNode, search, set_value, upsert, delete as delete_in_leaf, get as get_in_leaf,
  split as split_leaf, can_fit as leaf_can_fit,
}
use gemgraph.BTree.Leaf.Page.{
  BTreeError, pager, key_too_large, value_too_large, corrupt_node, to_page as leaf_to_page,
  from_page as leaf_from_page,
}
use gemgraph.BTree.Internal.{
  InternalEntry, InternalNode, single, find_child, insert_key, split as split_branch,
  can_fit as branch_can_fit,
}
use gemgraph.BTree.Internal.Page.{to_page as branch_to_page, from_page as branch_from_page}

abbrev pub max_key_size : ℕ
max_key_size = 1000

abbrev pub max_value_size : ℕ
max_value_size = 1000

pub record BTree : Type 0 where
  pub pager : Pager
  pub root : ℕ

-- `out_of_fuel` stands for no result of the source.
pub data Failure : Type 0 where
  failed : BTreeError → Failure
  out_of_fuel : Failure

abbrev pub Call : Type 0 → Type 0
Call A = Method BTree Failure A

-- `#[from] PagerError`
abbrev from_pager : {A : Type 0} → Result A PagerError → Result A Failure
from_pager (ok a) = ok a
from_pager (err e) = err (failed (pager e))

abbrev pub on_pager : {A : Type 0} → Method Pager PagerError A → Call A
on_pager m t = let (r, p) = m t.pager in (from_pager r, record t { pager = p })

abbrev pub checked : {A : Type 0} → Result A BTreeError → Result A Failure
checked (ok a) = ok a
checked (err e) = err (failed e)

abbrev pub alloc : Call ℕ
alloc t = let (id, p) = alloc_page t.pager in (ok id, record t { pager = p })

abbrev pub set_root : ℕ → Call (Unit {0})
set_root id t = (ok tt, record t { root = id })

-- `BTree::new`: `none` where the write fails, on which the source panics.
unfoldable pub new : Pager → Option BTree
new p =
    let (root_id, p1) = alloc_page p in
    let (r, p2) =
      write_page root_id (leaf_to_page (record { page_id = root_id; entries = [] })) p1 in
    elim r [ ok u ↦ some (record { pager = p2; root = root_id }) | err e ↦ none ]

unfoldable pub open_root : Pager → ℕ → BTree
open_root p root = record { pager = p; root = root }

unfoldable pub validate_key : List ℕ → Result (Unit {0}) BTreeError
validate_key key =
    if ltb max_key_size (length key) then err (key_too_large (length key) max_key_size) else ok tt

unfoldable pub validate_value : List ℕ → Result (Unit {0}) BTreeError
validate_value value =
    if ltb max_value_size (length value)
    then err (value_too_large (length value) max_value_size)
    else ok tt

-- The match on the type of a page.
abbrev pub by_type : {A : Type 0} → PageType → Call A → Call A → Call A
by_type btree_leaf on_leaf on_internal = on_leaf
by_type btree_internal on_leaf on_internal = on_internal
by_type _ on_leaf on_internal = lift (err (failed corrupt_node))

unfoldable pub find_leaf : ℕ → List ℕ → ℕ → Call LeafNode
find_leaf zero key page_id = lift (err out_of_fuel)
find_leaf (suc fuel) key page_id = do
  buf ← on_pager (read_page page_id)
  by_type (read_page_header buf).0 (lift (checked (leaf_from_page buf)))
      (lift (checked (branch_from_page buf)) >>= λ node. find_leaf fuel key (find_child key node).0)

-- The pages from `page_id` to the leaf, each with the index of the child that is followed.
unfoldable pub find_path : ℕ → List ℕ → ℕ → List (ℕ × ℕ) → Call (List (ℕ × ℕ))
find_path zero key page_id path = lift (err out_of_fuel)
find_path (suc fuel) key page_id path = do
  buf ← on_pager (read_page page_id)
  by_type (read_page_header buf).0 (pure (path ++ (page_id, 0) ∷ [])) (
      lift (checked (branch_from_page buf)) >>= λ node.
      let (child, idx) = find_child key node in
      find_path fuel key child (path ++ (page_id, idx) ∷ []))

-- `path.last()`, which is there on every path that `find_path` returns.
abbrev pub last_page : List (ℕ × ℕ) → ℕ
last_page [] = 0
last_page ((id, i) ∷ []) = id
last_page (_ ∷ x ∷ xs) = last_page (x ∷ xs)

-- `path[..path.len() - 1]` from its end.
unfoldable pub parents : List (ℕ × ℕ) → List ℕ
parents [] = []
parents (x ∷ []) = []
parents ((id, i) ∷ y ∷ path) = parents (y ∷ path) ++ id ∷ []

-- The pages above the split, from the leaf's parent to the root; where none is left the root has been
-- split, and a new one is made.
unfoldable pub insert_into_parent : List ℕ → List ℕ → ℕ → ℕ → Call (Unit {0})
insert_into_parent [] sep_key left_child right_child = do
  new_root_id ← alloc
  on_pager
      (write_page new_root_id (branch_to_page (single new_root_id left_child sep_key right_child)))
  set_root new_root_id
insert_into_parent (parent_page_id ∷ path) sep_key left_child right_child = do
  buf ← on_pager (read_page parent_page_id)
  parent ← lift (checked (branch_from_page buf))
  elim (branch_can_fit (length sep_key) parent) [
    | true ↦ on_pager (
        write_page parent.page_id
          (branch_to_page (insert_key sep_key left_child right_child parent)))
    | false ↦ alloc >>= λ new_page_id.
        let (left, right, pushed_key) =
          split_branch new_page_id (insert_key sep_key left_child right_child parent) in
        on_pager (write_page left.page_id (branch_to_page left))
        >> on_pager (write_page right.page_id (branch_to_page right))
        >> insert_into_parent path pushed_key left.page_id right.page_id
  ]

abbrev pub write_leaf : LeafNode → Call (Unit {0})
write_leaf leaf = on_pager (write_page leaf.page_id (leaf_to_page leaf))

-- A new entry, where it fits and where the leaf has to be split.
abbrev pub insert_new : List (ℕ × ℕ) → List ℕ → List ℕ → LeafNode → Bool → Call (Unit {0})
insert_new path key value leaf true = write_leaf (upsert key value leaf)
insert_new path key value leaf false = do
  new_page_id ← alloc
  (let (left, right, sep_key) = split_leaf new_page_id (upsert key value leaf) in
      write_leaf left
      >> write_leaf right
      >> insert_into_parent (parents path) sep_key left.page_id right.page_id)

-- What `insert` does with the leaf that it has found, for the result of the search.
abbrev pub insert_where : List (ℕ × ℕ) → List ℕ → List ℕ → LeafNode → Result ℕ ℕ → Call (Unit {0})
insert_where path key value leaf (ok idx) =
    write_leaf (record leaf { entries = set_value idx value leaf.entries })
insert_where path key value leaf (err idx) =
    insert_new path key value leaf (leaf_can_fit (length key) (length value) leaf)

-- The leaf is written where the key was there.
abbrev pub delete_outcome : Bool × LeafNode → Call Bool
delete_outcome (true, leaf) = write_leaf leaf >> pure true
delete_outcome (false, leaf) = pure false

-- The loop over the entries of a leaf.
unfoldable pub push_range :
    List ℕ → List ℕ → List LeafEntry → List (List ℕ × List ℕ) → List (List ℕ × List ℕ)
push_range start end [] results = results
push_range start end (e ∷ es) results = push_range start end es (
    if le_bytes start e.key && le_bytes e.key end
    then results ++ (e.key, e.value) ∷ []
    else results)

-- The loop over the entries of an internal node, for a call that collects a child's range.
unfoldable pub visit :
    (ℕ → List (List ℕ × List ℕ) → Call (List (List ℕ × List ℕ)))
    → List ℕ
    → List ℕ
    → ℕ
    → List InternalEntry
    → List (List ℕ × List ℕ)
    → Call (List (List ℕ × List ℕ))
visit collect start end right_child [] results = collect right_child results
visit collect start end right_child (e ∷ es) results =
    let rest = visit collect start end right_child es in
    (if lt_bytes start e.key then collect e.child results else pure results) >>= λ results'.
    if lt_bytes end e.key then pure results' else rest results'

unfoldable pub collect_range :
    ℕ → List ℕ → List ℕ → ℕ → List (List ℕ × List ℕ) → Call (List (List ℕ × List ℕ))
unfolding visit push_range
collect_range zero start end page_id results = lift (err out_of_fuel)
collect_range (suc fuel) start end page_id results = do
  buf ← on_pager (read_page page_id)
  by_type (read_page_header buf).0
      (lift (checked (leaf_from_page buf)) >>= λ leaf.
        pure (push_range start end leaf.entries results))
      (lift (checked (branch_from_page buf)) >>= λ node.
        visit (collect_range fuel start end) start end node.right_child node.entries results)

module _ (fuel : ℕ) where
  unfoldable pub get : List ℕ → Call (Option (List ℕ))
  unfolding find_leaf
  get key t =
      (do
        lift (checked (validate_key key))
        leaf ← find_leaf fuel key t.root
        pure (get_in_leaf key leaf))
        t

  unfoldable pub insert : List ℕ → List ℕ → Call (Unit {0})
  unfolding find_path insert_into_parent
  insert key value t =
      (do
        lift (checked (validate_key key))
        lift (checked (validate_value value))
        path ← find_path fuel key t.root []
        buf ← on_pager (read_page (last_page path))
        leaf ← lift (checked (leaf_from_page buf))
        insert_where path key value leaf (search key leaf))
        t

  unfoldable pub delete : List ℕ → Call Bool
  unfolding find_leaf
  delete key t =
      (do
        lift (checked (validate_key key))
        leaf ← find_leaf fuel key t.root
        delete_outcome (delete_in_leaf key leaf))
        t

  unfoldable pub range : List ℕ → List ℕ → Call (List (List ℕ × List ℕ))
  unfolding collect_range
  range start end t = collect_range fuel start end t.root [] t
