-- ===== src/Mvcc/Catalog.antt =====
-- crates/gemgraph-mvcc/src/catalog.rs: the tree of the roots of the user's trees.
use gemgraph.Base.{
  ℕ, ◌+◌, ◌-◌, ◌%◌, ◌^◌, List, [], ◌∷◌, map, take, Option, none, some, if◌then◌else◌, ltb, ◌==◌,
  Result, ok, err, ◌>>=◌, pure, lift,
}
use gemgraph.Bytes.Le.{to_le_bytes, from_le_bytes}
use gemgraph.Pager.Store.{Pager}
use gemgraph.BTree.Tree.{BTree, Call, Failure, failed, new, open_root, get, insert, range}
use gemgraph.BTree.Tree.Failure.{out_of_fuel as no_fuel}
use gemgraph.Mvcc.{
  btree_error, tree_not_found, MvccFailure, error, panicked, out_of_fuel, PagerCall,
}

abbrev of_tree : {A : Type 0} → Result A Failure → ℕ → Result (A × ℕ) MvccFailure
of_tree (ok a) root = ok (a, root)
of_tree (err (failed e)) root = err (error (btree_error e))
of_tree (err no_fuel) root = err out_of_fuel

-- `BTree::open` and a call on the tree, with the root that the tree has then.
abbrev pub with_tree : {A : Type 0} → ℕ → Call A → PagerCall (A × ℕ)
with_tree root call p = let (r, t) = call (open_root p root) in (of_tree r t.root, t.pager)

-- `BTree::new`, for the root of the new tree.
abbrev new_outcome : Pager → Option BTree → Result ℕ MvccFailure × Pager
new_outcome p none = (err panicked, p)
new_outcome p (some t) = (ok t.root, t.pager)

unfoldable pub new_tree : PagerCall ℕ
unfolding new
new_tree p = new_outcome p (new p)

-- `u32::from_le_bytes` of the first four bytes; fewer make the source panic.
abbrev id_of : List ℕ → ℕ
id_of bytes = from_le_bytes (take 4 bytes)

abbrev root_of : Option (List ℕ) → Option ℕ
root_of none = none
root_of (some val) = some (id_of val)

-- The greatest first part, `unwrap_or(0)`.
unfoldable pub max_id : List (ℕ × ℕ) → ℕ
max_id [] = 0
max_id ((tid, pid) ∷ entries) = let rest = max_id entries in if ltb rest tid then tid else rest

-- `max_id + 1` is of a `u32`.
abbrev next_id : List (ℕ × ℕ) → ℕ
next_id [] = 1
next_id (e ∷ entries) = (max_id (e ∷ entries) + 1) % 2 ^ 32

module _ (fuel : ℕ) where
  unfoldable pub catalog_get : ℕ → ℕ → PagerCall (Option ℕ)
  unfolding get open_root
  catalog_get catalog_root tree_id p =
      (do
        (val, root) ← with_tree catalog_root (get fuel (to_le_bytes 4 tree_id))
        pure (root_of val))
        p

  -- The catalog root behind the insertion.
  unfoldable pub catalog_set : ℕ → ℕ → ℕ → PagerCall ℕ
  unfolding insert open_root
  catalog_set catalog_root tree_id root p =
      (do
        (_, catalog_root') ←
            with_tree catalog_root (insert fuel (to_le_bytes 4 tree_id) (to_le_bytes 4 root))
        pure catalog_root')
        p

  unfoldable pub catalog_list : ℕ → PagerCall (List (ℕ × ℕ))
  unfolding range open_root
  catalog_list catalog_root p =
      (do
        (entries, _) ←
            with_tree catalog_root (range fuel (to_le_bytes 4 0) (to_le_bytes 4 (2 ^ 32 - 1)))
        pure (map (λ (k, v). (id_of k, id_of v)) entries))
        p

  unfoldable pub catalog_next_tree_id : ℕ → PagerCall ℕ
  unfolding catalog_list max_id
  catalog_next_tree_id catalog_root p =
      (do entries ← catalog_list catalog_root; pure (next_id entries)) p

  -- `ok_or(TreeNotFound)`
  abbrev pub found_or : ℕ → Option ℕ → Result ℕ MvccFailure
  found_or tree_id (some root) = ok root
  found_or tree_id none = err (error (tree_not_found tree_id))

  -- The root of a tree, for both kinds of transactions; root 0 stands for no catalog.
  unfoldable pub root_in_catalog : ℕ → ℕ → PagerCall ℕ
  unfolding catalog_get
  root_in_catalog catalog_root tree_id =
      if catalog_root == 0
      then lift (err (error (tree_not_found tree_id)))
      else catalog_get catalog_root tree_id >>= λ root. lift (found_or tree_id root)
