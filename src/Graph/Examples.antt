-- ===== src/Graph/Examples.antt =====
-- Keys of concrete nodes and edges.
use gemgraph.Base.{refl, ℕ, ◌≡◌, ◌↔◌, arith, [], ◌∷◌, true}
use gemgraph.Graph.Keys.{
  out_edges, in_edges, hash_str, encode_adjacency_key, decode_adjacency_key, adj_prefix_start,
  adj_prefix_end, adj_dir_start, adj_dir_end,
}
use gemgraph.Graph.Keys.RoundTrip.{decode-encode_adjacency_key}
use gemgraph.Graph.Keys.Ranges.{in_range, adj_prefix-exact, adj_dir-exact}

abbrev ann : ℕ
ann = 1

abbrev bob : ℕ
bob = 2

abbrev knows : ℕ
knows = 77

-- FNV-1a of "a".
hash_a : hash_str (97 ∷ []) ≡ 3826002220
unfolding hash_str
hash_a = refl

decode-encode_adjacency_key_example :
    decode_adjacency_key (encode_adjacency_key 1 in_edges 77 300 9) ≡ (1, in_edges, 77, 300, 9)
decode-encode_adjacency_key_example =
    decode-encode_adjacency_key 1 in_edges 77 300 9 (omega arith) (omega arith) (omega arith)
      (omega arith)

adj_prefix-exact_example :
    (in_range
        (adj_prefix_start 1 out_edges 77)
        (adj_prefix_end 1 out_edges 77)
        (encode_adjacency_key 1 out_edges 77 300 9)
      ≡ true)
    ↔ ((ann ≡ ann) × (out_edges ≡ out_edges) × (knows ≡ knows))
adj_prefix-exact_example =
    adj_prefix-exact 1 out_edges 77 1 out_edges 77 300 9 (omega arith) (omega arith)

adj_dir-exact_example :
    (in_range
        (adj_dir_start 1 out_edges)
        (adj_dir_end 1 out_edges)
        (encode_adjacency_key 2 out_edges 77 300 9)
      ≡ true)
    ↔ ((bob ≡ ann) × (out_edges ≡ out_edges))
adj_dir-exact_example = adj_dir-exact 1 out_edges 2 out_edges 77 300 9 (omega arith) (omega arith)
