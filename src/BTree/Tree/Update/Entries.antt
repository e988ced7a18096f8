-- ===== src/BTree/Tree/Update/Entries.antt =====
-- What an insertion and a deletion do to the entries of the leaf: bounds, size and room.
use gemgraph.Base.{
  ℕ, zero, suc, ◌+◌, ◌≤◌, ◌≡◌, refl, true, false, List, [], ◌∷◌, length, Result, ok, err, All,
  arith,
}
use gemgraph.Bytes.Order.{lt_bytes, ◌≺◌}
use gemgraph.BTree.Leaf.{
  LeafEntry, LeafNode, search, insert_at, set_value, remove_at, upserted, upsert, deleted, delete,
  used, can_fit, free_space, data_area_end,
}
use gemgraph.BTree.Tree.Model.{LeafFits}
use gemgraph.BTree.Tree.Replace.Keys.{Keeps}

-- A property of keys.
module _ (P : List ℕ → Type 0) where
  abbrev HasKey : LeafEntry → Type 0
  HasKey e = P e.key

  All-set_value :
      (i : ℕ) (value : List ℕ) (es : List LeafEntry)
      → All HasKey es
      → All HasKey (set_value i value es)
  All-set_value i value [] h = tt
  All-set_value zero value (x ∷ es) h = h
  All-set_value (suc i) value (x ∷ es) h = (h.0, All-set_value i value es h.1)

  All-insert_at :
      (i : ℕ) (e : LeafEntry) (es : List LeafEntry)
      → P e.key
      → All HasKey es
      → All HasKey (insert_at i e es)
  All-insert_at zero e es k h = (k, h)
  All-insert_at (suc i) e [] k h = (k, tt)
  All-insert_at (suc i) e (x ∷ es) k h = (h.0, All-insert_at i e es k h.1)

  All-remove_at : (i : ℕ) (es : List LeafEntry) → All HasKey es → All HasKey (remove_at i es)
  All-remove_at zero [] h = tt
  All-remove_at (suc i) [] h = tt
  All-remove_at zero (x ∷ es) h = h.1
  All-remove_at (suc i) (x ∷ es) h = (h.0, All-remove_at i es h.1)

  All-upserted :
      (key value : List ℕ) (es : List LeafEntry) (r : Result ℕ ℕ)
      → P key
      → All HasKey es
      → All HasKey (upserted key value es r)
  All-upserted key value es (ok i) k h = All-set_value i value es h
  All-upserted key value es (err i) k h =
      All-insert_at i (record { key = key; value = value }) es k h

  All-deleted :
      (leaf : LeafNode) (r : Result ℕ ℕ)
      → All HasKey leaf.entries
      → All HasKey (deleted leaf r).1.entries
  All-deleted leaf (ok i) h = All-remove_at i leaf.entries h
  All-deleted leaf (err i) h = h

pub upsert-Keeps :
    (key value : List ℕ) (leaf : LeafNode) → Keeps key leaf.entries (upsert key value leaf).entries
unfolding upsert
upsert-Keeps key value leaf = record {
  below = λ sep h a.
      All-upserted (λ k. k ≺ sep) key value leaf.entries (search key leaf) (ground arith) a;
  above = λ sep h a.
      All-upserted (λ k. lt_bytes k sep ≡ false) key value leaf.entries (search key leaf) h a;
}

pub delete-Keeps :
    (key : List ℕ) (leaf : LeafNode) → Keeps key leaf.entries (delete key leaf).1.entries
unfolding delete
delete-Keeps key leaf = record {
  below = λ sep h a. All-deleted (λ k. k ≺ sep) leaf (search key leaf) a;
  above = λ sep h a. All-deleted (λ k. lt_bytes k sep ≡ false) leaf (search key leaf) a;
}

insert_at-size :
    (i : ℕ) (e : LeafEntry) (es : List LeafEntry)
    → (length (insert_at i e es) ≡ suc (length es))
      × (used (insert_at i e es) ≡ length e.key + length e.value + used es)
unfolding used
insert_at-size zero e es = (refl, refl)
insert_at-size (suc i) e [] = (refl, refl)
insert_at-size (suc i) e (x ∷ es) =
    let (count, bytes) = insert_at-size i e es in (omega arith, omega arith)

remove_at-size :
    (i : ℕ) (es : List LeafEntry)
    → (length (remove_at i es) ≤ length es) × (used (remove_at i es) ≤ used es)
unfolding used
remove_at-size zero [] = (omega arith, omega arith)
remove_at-size (suc i) [] = (omega arith, omega arith)
remove_at-size zero (x ∷ es) = (omega arith, omega arith)
remove_at-size (suc i) (x ∷ es) =
    let (count, bytes) = remove_at-size i es in (omega arith, omega arith)

pub deleted-Fits : (leaf : LeafNode) (r : Result ℕ ℕ) → LeafFits leaf → LeafFits (deleted leaf r).1
deleted-Fits leaf (ok i) fits = let (count, bytes) = remove_at-size i leaf.entries in omega arith
deleted-Fits leaf (err i) fits = fits

-- Where a new entry fits the page, `can_fit` says so.
pub can_fit-new :
    (key value : List ℕ) (leaf : LeafNode) (i : ℕ)
    → LeafFits
        (record leaf { entries = insert_at i (record { key = key; value = value }) leaf.entries })
    → can_fit (length key) (length value) leaf ≡ true
unfolding can_fit free_space data_area_end
can_fit-new key value leaf i fits =
    let (count, bytes) = insert_at-size i (record { key = key; value = value }) leaf.entries in
    ground arith
