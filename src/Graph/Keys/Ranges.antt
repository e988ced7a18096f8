-- ===== src/Graph/Keys/Ranges.antt =====
-- Keys order as their fields do, so that an inclusive range of keys holds exactly the entries of a
-- node and direction, of an edge type, or of a label.
use gemgraph.Base.{
  ℕ, ◌^◌, ◌<◌, ◌≡◌, ◌↔◌, refl, ap, sym, ◌∙◌, List, [], ◌∷◌, ◌++◌, arith, compare, Ordering, Bool,
  true, ◌&&◌,
}
use gemgraph.Bytes.Be.{to_be_bytes, length-to_be_bytes, compare_bytes-to_be_bytes}
use gemgraph.Bytes.Order.{compare_bytes, le_bytes, then_compare, compare_bytes-append}
use gemgraph.Graph.Keys.{
  Direction, direction_byte, u32_max, u64_max, encode_adjacency_key, adj_prefix_start,
  adj_prefix_end, adj_dir_start, adj_dir_end, encode_label_key, label_prefix_start,
  label_prefix_end,
}
use gemgraph.Graph.Keys.RoundTrip.{adjacency_fields, label_fields}

-- `start <= key && key <= end`, the test of a range scan.
abbrev pub in_range : List ℕ → List ℕ → List ℕ → Bool
in_range start end key = le_bytes start key && le_bytes key end

compare_bytes-to_be :
    (w a b : ℕ) (r s : List ℕ)
    → a < 256 ^ w
    → b < 256 ^ w
    → compare_bytes (to_be_bytes w a ++ r) (to_be_bytes w b ++ s)
      ≡ then_compare (compare a b) (compare_bytes r s)
compare_bytes-to_be w a b r s h k =
    compare_bytes-append (to_be_bytes w a) (to_be_bytes w b) r s
      (length-to_be_bytes w a ∙ sym (length-to_be_bytes w b))
    ∙ ap (λ o. then_compare o (compare_bytes r s)) (compare_bytes-to_be_bytes w a b h k)

abbrev pub compare_dir : Direction → Direction → Ordering
compare_dir a b = compare (direction_byte a) (direction_byte b)

compare_bytes-dir :
    (a b : Direction) (r s : List ℕ)
    → compare_bytes ((direction_byte a ∷ []) ++ r) ((direction_byte b ∷ []) ++ s)
      ≡ then_compare (compare_dir a b) (compare_bytes r s)
unfolding compare_bytes
compare_bytes-dir a b r s = ground arith

-- Adjacency keys order by source, direction, edge type hash, destination and edge.
pub compare_bytes-encode_adjacency_key :
    (s s' : ℕ) (d d' : Direction) (h h' t t' e e' : ℕ)
    → (s < 2 ^ 64) × (h < 2 ^ 32) × (t < 2 ^ 64) × (e < 2 ^ 64)
    → (s' < 2 ^ 64) × (h' < 2 ^ 32) × (t' < 2 ^ 64) × (e' < 2 ^ 64)
    → compare_bytes (encode_adjacency_key s d h t e) (encode_adjacency_key s' d' h' t' e')
      ≡ then_compare (compare s s') (
          then_compare
            (compare_dir d d')
            (then_compare (compare h h') (then_compare (compare t t') (compare e e'))))
unfolding compare_bytes to_be_bytes
compare_bytes-encode_adjacency_key s s' d d' h h' t t' e e' (a1, a2, a3, a4) (b1, b2, b3, b4) =
    rw
      (
        adjacency_fields s d h t e,
        adjacency_fields s' d' h' t' e',
        compare_bytes-to_be 8 s s' _ _ a1 b1,
        compare_bytes-dir,
        compare_bytes-to_be 4 h h' _ _ a2 b2,
        compare_bytes-to_be 8 t t' _ _ a3 b3,
        compare_bytes-to_be_bytes 8 e e' a4 b4,
      )
      refl

-- The range from `adj_prefix_start` to `adj_prefix_end` holds the keys of that node, direction and
-- edge type hash, and no other.
pub adj_prefix-exact :
    (node : ℕ) (dir : Direction) (hash : ℕ) (s : ℕ) (d : Direction) (h t e : ℕ)
    → (node < 2 ^ 64) × (hash < 2 ^ 32)
    → (s < 2 ^ 64) × (h < 2 ^ 32) × (t < 2 ^ 64) × (e < 2 ^ 64)
    → (in_range
          (adj_prefix_start node dir hash)
          (adj_prefix_end node dir hash)
          (encode_adjacency_key s d h t e)
        ≡ true)
      ↔ ((s ≡ node) × (d ≡ dir) × (h ≡ hash))
unfolding adj_prefix_start adj_prefix_end
adj_prefix-exact node dir hash s d h t e (n1, n2) k = ground (
  arith,
  compare_bytes-encode_adjacency_key node s dir d hash h 0 t 0 e (n1, n2, omega arith, omega arith)
      k,
  compare_bytes-encode_adjacency_key s node d dir h hash t u64_max e u64_max k
      (n1, n2, omega arith, omega arith),
)

-- The range from `adj_dir_start` to `adj_dir_end` holds the keys of that node and direction, of all
-- types, and no other.
pub adj_dir-exact :
    (node : ℕ) (dir : Direction) (s : ℕ) (d : Direction) (h t e : ℕ)
    → node < 2 ^ 64
    → (s < 2 ^ 64) × (h < 2 ^ 32) × (t < 2 ^ 64) × (e < 2 ^ 64)
    → (in_range (adj_dir_start node dir) (adj_dir_end node dir) (encode_adjacency_key s d h t e)
        ≡ true)
      ↔ ((s ≡ node) × (d ≡ dir))
unfolding adj_dir_start adj_dir_end
adj_dir-exact node dir s d h t e n k = ground (
  arith,
  compare_bytes-encode_adjacency_key node s dir d 0 h 0 t 0 e
      (n, omega arith, omega arith, omega arith) k,
  compare_bytes-encode_adjacency_key s node d dir h u32_max t u64_max e u64_max k
      (n, omega arith, omega arith, omega arith),
)

compare_bytes-encode_label_key :
    (h h' n n' : ℕ)
    → (h < 2 ^ 32) × (n < 2 ^ 64)
    → (h' < 2 ^ 32) × (n' < 2 ^ 64)
    → compare_bytes (encode_label_key h n) (encode_label_key h' n')
      ≡ then_compare (compare h h') (compare n n')
compare_bytes-encode_label_key h h' n n' (a1, a2) (b1, b2) =
    rw (label_fields h n, label_fields h' n')
      (compare_bytes-to_be 4 h h' (to_be_bytes 8 n) (to_be_bytes 8 n') a1 b1
        ∙ ap (then_compare (compare h h')) (compare_bytes-to_be_bytes 8 n n' a2 b2))

-- The range from `label_prefix_start` to `label_prefix_end` holds the keys of that label hash and no
-- other.
pub label_prefix-exact :
    (label_hash h n : ℕ)
    → label_hash < 2 ^ 32
    → (h < 2 ^ 32) × (n < 2 ^ 64)
    → (in_range (label_prefix_start label_hash) (label_prefix_end label_hash) (encode_label_key h n)
        ≡ true)
      ↔ (h ≡ label_hash)
unfolding label_prefix_start label_prefix_end
label_prefix-exact label_hash h n l k = ground (
  arith,
  compare_bytes-encode_label_key label_hash h 0 n (l, omega arith) k,
  compare_bytes-encode_label_key h label_hash n u64_max k (l, omega arith),
)
