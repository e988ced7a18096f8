-- ===== src/BTree/Tree/Update/Insert.antt =====
-- An insertion that leaves its leaf on its page.
use mathlib.Core.Path.{subst}
use gemgraph.Base.{
  ℕ, zero, suc, ◌≤◌, ◌<◌, ◌≡◌, refl, sym, ap, true, List, [], ◌∷◌, ◌++◌, some, length, ltb-eq-false,
  Result, ok, err, arith,
}
use gemgraph.Pager.Store.{read_page}
use gemgraph.Pager.Store.Coherence.{IsCoherent}
use gemgraph.BTree.Leaf.{LeafNode, search, upserted, upsert, can_fit}
use gemgraph.BTree.Leaf.Page.{to_page as leaf_to_page}
use gemgraph.BTree.Leaf.Page.RoundTrip.{from_page-to_page_leaf}
use gemgraph.BTree.Leaf.Sorted.{upsert-IsSorted}
use gemgraph.BTree.Leaf.Refinement.{find-upsert}
use gemgraph.BTree.Internal.{find_child}
use gemgraph.BTree.Tree.{
  BTree, on_pager, checked, validate_value, find_path, last_page, write_leaf, insert_new,
  insert_where, insert,
}
use gemgraph.BTree.Tree.Model.{
  Tree, page_of, node_of, LeafFits, OnDisk, pick, pick-All, descend, find_child-node_of,
}
use gemgraph.BTree.Tree.Order.{descend-IsSorted}
use gemgraph.BTree.Tree.Reads.{
  Reads, and_then-Reads, pure-Reads, lift-Reads, read_page-Reads, read_leaf-Reads,
  read_branch-Reads,
}
use gemgraph.BTree.Tree.Lookup.{validate_key-ok}
use gemgraph.BTree.Tree.Replace.{replace}
use gemgraph.BTree.Tree.Replace.Disk.{pages_of-replace}
use gemgraph.BTree.Tree.Replace.Keys.{replace-find}
use gemgraph.BTree.Tree.Update.{Stored, Binds, and_then-Binds, descend-OnDisk, write_leaf-Stored}
use gemgraph.BTree.Tree.Update.Entries.{upsert-Keeps, can_fit-new}

-- The path that `find_path` returns behind the one that it is given.
unfoldable pub path_of : (h : ℕ) → List ℕ → Tree h → List (ℕ × ℕ) → List (ℕ × ℕ)
path_of zero key leaf path = path ++ (leaf.page_id, 0) ∷ []
path_of (suc h) key b path =
    path_of h key (pick key b.children b.last)
      (path ++ (b.page_id, (find_child key (node_of h b)).1) ∷ [])

pub find_path-path_of :
    (fuel h : ℕ) (key : List ℕ) (tree : Tree h) (path : List (ℕ × ℕ)) (t : BTree)
    → h < fuel
    → IsCoherent t.pager
    → OnDisk t.pager.file.pages h tree
    → Reads t (path_of h key tree path) (find_path fuel key (page_of h tree) path t)
unfolding find_path path_of
find_path-path_of zero h key tree path t enough c d = absurd (omega arith)
find_path-path_of (suc fuel) zero key leaf path t enough c d =
    read_leaf-Reads (path ++ (leaf.page_id, 0) ∷ []) leaf t _ _ c d
      (λ t' file c' back. pure-Reads t' _ c')
find_path-path_of (suc fuel) (suc h) key b path t enough c d =
    let all = path_of (suc h) key b path in
    read_branch-Reads all h b t _ _ c d λ t' file c' back.
      and_then-Reads t' (node_of h b) all _ _ (lift-Reads t' (node_of h b) _ (ap checked back) c')
        λ s same c''. rw (find_child-node_of h key b) (
          find_path-path_of fuel h key (pick key b.children b.last) _ s (omega arith) c'' (
            pick-All (OnDisk s.pager.file.pages h) key b.children b.last (rw (same, file) d.3)
              (rw (same, file) d.4)))

last_page-append : (path : List (ℕ × ℕ)) (id i : ℕ) → last_page (path ++ (id, i) ∷ []) ≡ id
last_page-append [] id i = refl
last_page-append (x ∷ []) id i = refl
last_page-append (x ∷ y ∷ path) id i = last_page-append (y ∷ path) id i

pub last_page-path_of :
    (h : ℕ) (key : List ℕ) (tree : Tree h) (path : List (ℕ × ℕ))
    → last_page (path_of h key tree path) ≡ (descend h key tree).page_id
unfolding path_of descend
last_page-path_of zero key leaf path = last_page-append path leaf.page_id 0
last_page-path_of (suc h) key b path = last_page-path_of h key (pick key b.children b.last) _

validate_value-ok : (value : List ℕ) → length value ≤ 1000 → validate_value value ≡ ok tt
unfolding validate_value
validate_value-ok value short = rw (ltb-eq-false 1000 (length value) short) refl

module _ (h : ℕ) (key value : List ℕ) (tree : Tree h) where
  abbrev leaf : LeafNode
  leaf = descend h key tree

  abbrev leaf' : LeafNode
  leaf' = upsert key value leaf

  write-Binds :
      (t : BTree)
      → Stored h tree t
      → LeafFits leaf'
      → Binds h tree t key (some value) tt (write_leaf leaf' t)
  unfolding upsert
  write-Binds t s fits =
      let sorted = upsert-IsSorted key value leaf (descend-IsSorted h key tree s.holds.ordered) in
      let (done, stored, frame) =
        write_leaf-Stored h key leaf' tree t s refl fits sorted (upsert-Keeps key value leaf) in
      record {
        result = done;
        tree' = replace h key leaf' tree;
        stored = stored;
        same_pages = pages_of-replace key leaf' h tree refl;
        frame = frame;
        finds = λ other.
            replace-find key leaf' h tree other (some value)
              ((find-upsert key value other leaf (descend-IsSorted h key tree s.holds.ordered)).1)
              s.holds.ordered;
      }

  insert_where-Binds :
      (path : List (ℕ × ℕ)) (t : BTree)
      → Stored h tree t
      → LeafFits leaf'
      → Binds h tree t key (some value) tt (insert_where path key value leaf (search key leaf) t)
  unfolding upsert
  insert_where-Binds path t s fits = by_result (search key leaf) refl
    where
      by_result :
          (r : Result ℕ ℕ)
          → search key leaf ≡ r
          → Binds h tree t key (some value) tt (insert_where path key value leaf r t)
      by_result (ok idx) e =
          subst
            (λ (r : Result ℕ ℕ).
              Binds h tree t key (some value) tt
                (write_leaf (record leaf { entries = upserted key value leaf.entries r }) t))
            e (write-Binds t s fits)
      by_result (err idx) e =
          let room : can_fit (length key) (length value) leaf ≡ true =
            can_fit-new key value leaf idx (
              subst
                (λ (r : Result ℕ ℕ).
                  LeafFits (record leaf { entries = upserted key value leaf.entries r }))
                e fits) in
          subst (λ b. Binds h tree t key (some value) tt (insert_new path key value leaf b t))
            (sym room) (write-Binds t s fits)

-- An insertion of a key and a value of at most 1,000 bytes each, with fuel for the levels of the tree,
-- on a device without faults, where the leaf with the new entry fits its page: it returns `Ok`, and
-- the pages below the root hold a tree again that has the value at the key and at every other key
-- what it had.
pub insert-Binds :
    (fuel h : ℕ) (key value : List ℕ) (tree : Tree h) (t : BTree)
    → h < fuel
    → length key ≤ 1000
    → length value ≤ 1000
    → Stored h tree t
    → LeafFits (upsert key value (descend h key tree))
    → Binds h tree t key (some value) tt (insert fuel key value t)
unfolding insert
insert-Binds fuel h key value tree t enough short_key short_value s fits =
    let c = s.holds.coherent in
    let path = path_of h key tree [] in
    let node = descend h key tree in
    and_then-Binds h tree key t tt _ _ s
      (lift-Reads t tt _ (ap checked (validate_key-ok key short_key)) c)
      λ t1 s1.
        and_then-Binds h tree key t1 tt _ _ s1
          (lift-Reads t1 tt _ (ap checked (validate_value-ok value short_value)) s1.holds.coherent)
          λ t2 s2.
            and_then-Binds h tree key t2 path (find_path fuel key t.root [] t2) _ s2
              (rw s.holds.root
                (find_path-path_of fuel h key tree [] t2 enough s2.holds.coherent s2.holds.on_disk))
              λ t3 s3.
                let (id, node_fits, there) =
                  descend-OnDisk t3.pager.file.pages h key tree s3.holds.on_disk in
                and_then-Binds h tree key t3 (leaf_to_page node)
                  (on_pager (read_page (last_page path)) t3) _ s3
                  (rw (last_page-path_of h key tree []) (
                    read_page-Reads node.page_id (leaf_to_page node) t3 id.0 s3.holds.coherent
                      there))
                  λ t4 s4.
                    and_then-Binds h tree key t4 node _ _ s4
                      (lift-Reads t4 node _
                        (ap checked (from_page-to_page_leaf node node_fits id.1)) s4.holds.coherent)
                      λ t5 s5. insert_where-Binds h key value tree path t5 s5 fits
