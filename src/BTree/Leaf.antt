-- ===== src/BTree/Leaf.antt =====
-- crates/gemgraph-btree/src/node.rs: `LeafNode`, the sorted entries of a leaf.
pub mod Sorted
pub mod Refinement
pub mod Split
pub mod Page
use gemgraph.Base.{
  ℕ, zero, suc, ◌+◌, ◌*◌, ◌-◌, ◌/◌, Bool, true, false, List, [], ◌∷◌, Option, none, some, length,
  take, drop, if◌then◌else◌, leb, ltb, Result, ok, err, get_elem?,
}
use gemgraph.Bytes.Order.{compare_bytes}
use gemgraph.Pager.Page.{page_size, page_header_size}
use Prim.Native.Nat.Ordering.{lt, eq, gt}

abbrev pub num_offset : ℕ
num_offset = page_header_size

abbrev pub data_end_offset : ℕ
data_end_offset = num_offset + 2

abbrev pub leaf_slots_offset : ℕ
leaf_slots_offset = data_end_offset + 2

abbrev pub leaf_slot_size : ℕ
leaf_slot_size = 6

pub record LeafEntry : Type 0 where
  pub key : List ℕ
  pub value : List ℕ

pub record LeafNode : Type 0 where
  pub page_id : ℕ
  pub entries : List LeafEntry

abbrev pub shift : Result ℕ ℕ → Result ℕ ℕ
shift (ok i) = ok (suc i)
shift (err i) = err (suc i)

-- `binary_search_by` as it is documented for sorted entries with distinct keys: `Ok` of the position
-- of the key, or `Err` of the position that keeps the entries sorted.
unfoldable pub search_entries : List ℕ → List LeafEntry → Result ℕ ℕ
search_entries key [] = err 0
search_entries key (e ∷ es) =
    let rest = search_entries key es in
    elim (compare_bytes e.key key) [ lt ↦ shift rest | eq ↦ ok 0 | gt ↦ err 0 ]

unfoldable pub search : List ℕ → LeafNode → Result ℕ ℕ
search key node = search_entries key node.entries

-- `Vec::insert`
abbrev pub insert_at {ℓ} : {A : Type ℓ} → ℕ → A → List A → List A
insert_at zero e es = e ∷ es
insert_at (suc i) e [] = e ∷ []
insert_at (suc i) e (x ∷ es) = x ∷ insert_at i e es

-- `Vec::remove`
abbrev pub remove_at : ℕ → List LeafEntry → List LeafEntry
remove_at i [] = []
remove_at zero (x ∷ es) = es
remove_at (suc i) (x ∷ es) = x ∷ remove_at i es

-- `entries[i].value = value`
abbrev pub set_value : ℕ → List ℕ → List LeafEntry → List LeafEntry
set_value i value [] = []
set_value zero value (x ∷ es) = record x { value = value } ∷ es
set_value (suc i) value (x ∷ es) = x ∷ set_value i value es

abbrev pub upserted : List ℕ → List ℕ → List LeafEntry → Result ℕ ℕ → List LeafEntry
upserted key value es (ok i) = set_value i value es
upserted key value es (err i) = insert_at i (record { key = key; value = value }) es

unfoldable pub upsert : List ℕ → List ℕ → LeafNode → LeafNode
upsert key value node = record node { entries = upserted key value node.entries (search key node) }

abbrev pub deleted : LeafNode → Result ℕ ℕ → Bool × LeafNode
deleted node (ok i) = (true, record node { entries = remove_at i node.entries })
deleted node (err i) = (false, node)

unfoldable pub delete : List ℕ → LeafNode → Bool × LeafNode
delete key node = deleted node (search key node)

-- The first key of the right node; `right_entries[0]` of no entries panics in the source.
abbrev pub first_key : List LeafEntry → List ℕ
first_key [] = []
first_key (e ∷ es) = e.key

-- The left node, the right node and the separator.
unfoldable pub split : ℕ → LeafNode → LeafNode × LeafNode × List ℕ
split new_page_id node =
    let mid = length node.entries / 2 in
    let right_entries = drop mid node.entries in
    (
      record node { entries = take mid node.entries },
      record { page_id = new_page_id; entries = right_entries },
      first_key right_entries,
    )

unfoldable pub used : List LeafEntry → ℕ
used [] = 0
used (e ∷ es) = length e.key + length e.value + used es

-- `PAGE_SIZE - used`, which in the source underflows where the entries do not fit a page.
unfoldable pub data_area_end : LeafNode → ℕ
unfolding used
data_area_end node = page_size - used node.entries

unfoldable pub free_space : LeafNode → ℕ
unfolding data_area_end
free_space node =
    let slot_end = leaf_slots_offset + length node.entries * leaf_slot_size in
    let data_start = data_area_end node in
    if ltb slot_end data_start then data_start - slot_end else 0

abbrev pub space_needed : ℕ → ℕ → ℕ
space_needed key_len val_len = leaf_slot_size + key_len + val_len

unfoldable pub can_fit : ℕ → ℕ → LeafNode → Bool
unfolding free_space
can_fit key_len val_len node = leb (space_needed key_len val_len) (free_space node)

-- `BTree::get` in the leaf that it has found.
unfoldable pub get : List ℕ → LeafNode → Option (List ℕ)
get key node = elim (search key node) [
  | err i ↦ none
  | ok i ↦ elim (get_elem? node.entries i) [ none ↦ none | some e ↦ some e.value ]
]
