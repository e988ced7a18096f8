-- ===== src/BTree/Tree/Update/Delete.antt =====
-- A deletion.
use mathlib.Core.Path.{subst}
use gemgraph.Base.{
  ℕ, ◌≤◌, ◌<◌, ◌≡◌, refl, sym, ap, ◌∙◌, Bool, true, false, List, [], ◌∷◌, Option, none, some,
  length, if◌then◌else◌, Result, ok, err, and_then, pure, arith,
}
use Prim.Native.Nat.{Ordering}
use Prim.Native.Nat.Ordering.{lt, eq, gt}
use gemgraph.Bytes.Order.{compare_bytes, eq_bytes, eq_of_compare_bytes, lt_of_gt}
use gemgraph.BTree.Leaf.{
  LeafEntry, LeafNode, shift, search_entries, search, deleted, delete as delete_in_leaf,
}
use gemgraph.BTree.Leaf.Sorted.{IsSorted, IsAbove-trans, delete-IsSorted}
use gemgraph.BTree.Leaf.Refinement.{find, find-above, find-delete}
use gemgraph.BTree.Tree.{BTree, Failure, checked, find_leaf, write_leaf, delete_outcome, delete}
use gemgraph.BTree.Tree.Model.{Tree, flatten, LeafFits, descend}
use gemgraph.BTree.Tree.Order.{find-descend, descend-IsSorted}
use gemgraph.BTree.Tree.Reads.{lift-Reads}
use gemgraph.BTree.Tree.Lookup.{validate_key-ok, find_leaf-descend}
use gemgraph.BTree.Tree.Replace.{replace}
use gemgraph.BTree.Tree.Replace.Disk.{pages_of-replace}
use gemgraph.BTree.Tree.Replace.Keys.{Keeps, replace-find}
use gemgraph.BTree.Tree.Update.{Stored, Binds, and_then-Binds, descend-OnDisk, write_leaf-Stored}
use gemgraph.BTree.Tree.Update.Entries.{delete-Keeps, deleted-Fits}

abbrev pub is_some : Option (List ℕ) → Bool
is_some none = false
is_some (some v) = true

abbrev is_ok : Result ℕ ℕ → Bool
is_ok (ok i) = true
is_ok (err i) = false

not_there : (o : Option (List ℕ)) → is_some o ≡ false → o ≡ none
not_there none h = refl
not_there (some v) h = cc

and_then-pure :
    {A : Type 0} (a : A) (r : Result (Unit {0}) Failure × BTree)
    → r.0 ≡ ok tt
    → and_then r (λ _. pure {S = BTree} {E = Failure} a) ≡ (ok a, r.1)
and_then-pure a (ok u, t) h = refl
and_then-pure a (err e, t) h = cc

-- The search of a sorted leaf succeeds for the keys that the leaf holds.
is_ok-search :
    (key : List ℕ) (es : List LeafEntry)
    → IsSorted es
    → is_ok (search_entries key es) ≡ is_some (find key es)
unfolding search_entries find
is_ok-search key [] h = refl
is_ok-search key (e ∷ es) h =
    by_order (compare_bytes e.key key) (search_entries key es) refl (is_ok-search key es h.1)
  where
    by_order :
        (o : Ordering) (r : Result ℕ ℕ)
        → compare_bytes e.key key ≡ o
        → is_ok r ≡ is_some (find key es)
        → is_ok (elim o [ lt ↦ shift r | eq ↦ ok 0 | gt ↦ err 0 ])
          ≡ is_some (if elim o [ eq ↦ true | _ ↦ false ] then some e.value else find key es)
    by_order lt (ok i) c rest = rest
    by_order lt (err i) c rest = rest
    by_order eq r c rest = refl
    by_order gt r c rest =
        ap is_some (sym (find-above key es (IsAbove-trans key e es (lt_of_gt e.key key c) h.0)))

module _ (h : ℕ) (key : List ℕ) (tree : Tree h) where
  abbrev leaf : LeafNode
  leaf = descend h key tree

  -- What the leaf holds is what the tree holds.
  there :
      (t : BTree) → Stored h tree t → is_ok (search key leaf) ≡ is_some (find key (flatten h tree))
  unfolding search
  there t s =
      is_ok-search key leaf.entries (descend-IsSorted h key tree s.holds.ordered)
      ∙ ap is_some (sym (find-descend h key tree s.holds.ordered))

  -- The key was there, and the leaf is written without it.
  removed-Binds :
      (i : ℕ) (t : BTree)
      → search key leaf ≡ ok i
      → Stored h tree t
      → LeafFits leaf
      → Binds h tree t key none true (delete_outcome (deleted leaf (ok i)) t)
  unfolding delete_in_leaf
  removed-Binds i t e s fits =
      let leaf' = (deleted leaf (ok i)).1 in
      let sorted : IsSorted leaf'.entries =
        subst (λ r. IsSorted (deleted leaf r).1.entries) e
          (delete-IsSorted key leaf (descend-IsSorted h key tree s.holds.ordered)) in
      let keeps : Keeps key leaf.entries leaf'.entries =
        subst (λ r. Keeps key leaf.entries (deleted leaf r).1.entries) e (delete-Keeps key leaf) in
      let (done, stored, frame) =
        write_leaf-Stored h key leaf' tree t s refl (deleted-Fits leaf (ok i) fits) sorted keeps in
      let outcome = and_then-pure true (write_leaf leaf' t) done in
      subst (λ r. Binds h tree t key none true r) (sym outcome)
        (record {
          result = refl;
          tree' = replace h key leaf' tree;
          stored = stored;
          same_pages = pages_of-replace key leaf' h tree refl;
          frame = frame;
          finds = λ other.
              replace-find key leaf' h tree other none
                (subst
                  (λ r.
                    find other (deleted leaf r).1.entries
                    ≡ (if eq_bytes key other then none else find other leaf.entries))
                  e (find-delete key other leaf (descend-IsSorted h key tree s.holds.ordered)))
                s.holds.ordered;
        })

  absent-finds :
      (other : List ℕ)
      → find key (flatten h tree) ≡ none
      → find other (flatten h tree)
        ≡ (if eq_bytes key other then none else find other (flatten h tree))
  absent-finds other e = ground (arith, e, eq_of_compare_bytes key other)

  delete_outcome-Binds :
      (t : BTree)
      → Stored h tree t
      → LeafFits leaf
      → Binds h tree t key none
          (is_some (find key (flatten h tree)))
          (delete_outcome (delete_in_leaf key leaf) t)
  unfolding delete_in_leaf
  delete_outcome-Binds t s fits = by_result (search key leaf) refl
    where
      by_result :
          (r : Result ℕ ℕ)
          → search key leaf ≡ r
          → Binds h tree t key none
              (is_some (find key (flatten h tree)))
              (delete_outcome (deleted leaf r) t)
      by_result (ok i) e =
          subst (λ b. Binds h tree t key none b (delete_outcome (deleted leaf (ok i)) t))
            (sym (ap is_ok e) ∙ there t s) (removed-Binds i t e s fits)
      by_result (err i) e =
          let absent = sym (there t s) ∙ ap is_ok e in
          record {
            result = ap ok (sym absent);
            tree' = tree;
            stored = s;
            same_pages = refl;
            frame = λ id page apart there. there;
            finds = λ other. absent-finds other (not_there (find key (flatten h tree)) absent);
          }

-- A deletion of a key of at most 1,000 bytes, with fuel for the levels of the tree, on a device
-- without faults: it says whether the tree held the key, and the pages below the root hold a tree
-- again that does not hold the key and has at every other key what it had.
pub delete-Binds :
    (fuel h : ℕ) (key : List ℕ) (tree : Tree h) (t : BTree)
    → h < fuel
    → length key ≤ 1000
    → Stored h tree t
    → Binds h tree t key none (is_some (find key (flatten h tree))) (delete fuel key t)
unfolding delete
delete-Binds fuel h key tree t enough short s =
    let node = descend h key tree in
    and_then-Binds h tree key t tt _ _ s
      (lift-Reads t tt _ (ap checked (validate_key-ok key short)) s.holds.coherent)
      λ t1 s1.
        and_then-Binds h tree key t1 node (find_leaf fuel key t.root t1) _ s1
          (rw s.holds.root
            (find_leaf-descend fuel h key tree t1 enough s1.holds.coherent s1.holds.on_disk))
          λ t2 s2.
            let (id, fits, page) = descend-OnDisk t2.pager.file.pages h key tree s2.holds.on_disk in
            delete_outcome-Binds h key tree t2 s2 fits
