-- ===== src/BTree/Tree/Lookup.antt =====
-- A lookup in a tree on disk.
use gemgraph.Base.{
  ℕ, zero, suc, ◌≤◌, ◌<◌, ◌≡◌, refl, sym, ap, ◌∙◌, List, length, ltb-eq-false, ok, arith,
}
use gemgraph.Pager.Store.Coherence.{IsCoherent}
use gemgraph.BTree.Leaf.Refinement.{find, get-eq-find}
use gemgraph.BTree.Tree.{BTree, checked, validate_key, find_leaf, get}
use gemgraph.BTree.Tree.Model.{
  Tree, page_of, node_of, flatten, OnDisk, Holds, pick, pick-All, descend, find_child-node_of,
}
use gemgraph.BTree.Tree.Order.{find-descend, descend-IsSorted}
use gemgraph.BTree.Tree.Reads.{
  Reads, and_then-Reads, lift-Reads, read_leaf-Reads, read_branch-Reads,
}

-- With fuel for its levels a descent returns the leaf that the key goes to.
pub find_leaf-descend :
    (fuel h : ℕ) (key : List ℕ) (tree : Tree h) (t : BTree)
    → h < fuel
    → IsCoherent t.pager
    → OnDisk t.pager.file.pages h tree
    → Reads t (descend h key tree) (find_leaf fuel key (page_of h tree) t)
unfolding find_leaf descend
find_leaf-descend zero h key tree t enough c d = absurd (omega arith)
find_leaf-descend (suc fuel) zero key leaf t enough c d =
    read_leaf-Reads leaf leaf t _ _ c d
      (λ t' file c' back. lift-Reads t' leaf _ (ap checked back) c')
find_leaf-descend (suc fuel) (suc h) key b t enough c d =
    read_branch-Reads (descend (suc h) key b) h b t _ _ c d λ t' file c' back.
      and_then-Reads t' (node_of h b) (descend (suc h) key b) _ _
        (lift-Reads t' (node_of h b) _ (ap checked back) c')
        λ s same c''.
          let next = pick key b.children b.last in
          rw (find_child-node_of h key b) (
            find_leaf-descend fuel h key next s (omega arith) c'' (
              pick-All (OnDisk s.pager.file.pages h) key b.children b.last (rw (same, file) d.3)
                (rw (same, file) d.4)))

pub validate_key-ok : (key : List ℕ) → length key ≤ 1000 → validate_key key ≡ ok tt
unfolding validate_key
validate_key-ok key short = rw (ltb-eq-false 1000 (length key) short) refl

-- A lookup of a key of at most 1,000 bytes, with fuel for the levels of the tree, returns what the
-- entries of the leaves hold at the key, and changes neither the file nor the root.
pub get-finds :
    (fuel h : ℕ) (key : List ℕ) (tree : Tree h) (t : BTree)
    → h < fuel
    → length key ≤ 1000
    → Holds h tree t
    → Reads t (find key (flatten h tree)) (get fuel key t)
unfolding get
get-finds fuel h key tree t enough short held =
    let value = find key (flatten h tree) in
    let leaf = descend h key tree in
    and_then-Reads t tt value _ _
      (lift-Reads t tt _ (ap checked (validate_key-ok key short)) held.coherent)
      λ t1 same c.
        and_then-Reads t1 leaf value (find_leaf fuel key t.root t1) _
          (rw held.root (find_leaf-descend fuel h key tree t1 enough c (rw same held.on_disk)))
          λ t2 same2 c2.
            lift-Reads t2 value _
              (ap ok (
                get-eq-find key leaf (descend-IsSorted h key tree held.ordered)
                ∙ sym (find-descend h key tree held.ordered)))
              c2
