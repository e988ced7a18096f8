-- ===== src/Graph/Keys.antt =====
-- crates/gemgraph-graph/src/keys.rs: the keys of the adjacency index and of the label index.
pub mod RoundTrip
pub mod Ranges
use gemgraph.Base.{ℕ, zero, suc, ◌+◌, ◌*◌, ◌-◌, ◌/◌, ◌%◌, ◌^◌, List, [], ◌∷◌, if◌then◌else◌, ◌==◌}
use Prim.Native.Nat.{bit_xor}
use gemgraph.Bytes.Be.{to_be_bytes, from_be_bytes}
use gemgraph.Bytes.Buffer.{zeros, read_at, write_at}
use gemgraph.Bytes.Fields.{byte_at, set_byte}

pub data Direction : Type 0 where
  out_edges in_edges : Direction

-- `dir as u8`
abbrev pub direction_byte : Direction → ℕ
direction_byte out_edges = 0
direction_byte in_edges = 1

-- The loop over the bytes from the hash `h` on.
unfoldable pub hash_loop : ℕ → List ℕ → ℕ
hash_loop h [] = h
hash_loop h (b ∷ bytes) = hash_loop (bit_xor h b * 16777619 % 2 ^ 32) bytes

-- FNV-1a, of the bytes of the string.
unfoldable pub hash_str : List ℕ → ℕ
unfolding hash_loop
hash_str bytes = hash_loop 2166136261 bytes

abbrev pub adj_key_len : ℕ
adj_key_len = 29

unfoldable pub encode_adjacency_key : ℕ → Direction → ℕ → ℕ → ℕ → List ℕ
encode_adjacency_key src dir edge_type_hash dst edge_id =
    let buf1 = write_at 0 (to_be_bytes 8 src) (zeros adj_key_len) in
    let buf2 = set_byte 8 (direction_byte dir) buf1 in
    let buf3 = write_at 9 (to_be_bytes 4 edge_type_hash) buf2 in
    let buf4 = write_at 13 (to_be_bytes 8 dst) buf3 in write_at 21 (to_be_bytes 8 edge_id) buf4

-- A key that is shorter than 29 bytes panics in the source; here its fields are cut off.
unfoldable pub decode_adjacency_key : List ℕ → ℕ × Direction × ℕ × ℕ × ℕ
decode_adjacency_key key = (
  from_be_bytes (read_at 0 8 key),
  (if byte_at 8 key == 0 then out_edges else in_edges),
  from_be_bytes (read_at 9 4 key),
  from_be_bytes (read_at 13 8 key),
  from_be_bytes (read_at 21 8 key),
)

abbrev pub u32_max : ℕ
u32_max = 2 ^ 32 - 1

abbrev pub u64_max : ℕ
u64_max = 2 ^ 64 - 1

unfoldable pub adj_prefix_start : ℕ → Direction → ℕ → List ℕ
adj_prefix_start node dir type_hash = encode_adjacency_key node dir type_hash 0 0

unfoldable pub adj_prefix_end : ℕ → Direction → ℕ → List ℕ
adj_prefix_end node dir type_hash = encode_adjacency_key node dir type_hash u64_max u64_max

unfoldable pub adj_dir_start : ℕ → Direction → List ℕ
adj_dir_start node dir = encode_adjacency_key node dir 0 0 0

unfoldable pub adj_dir_end : ℕ → Direction → List ℕ
adj_dir_end node dir = encode_adjacency_key node dir u32_max u64_max u64_max

abbrev pub label_key_len : ℕ
label_key_len = 12

unfoldable pub encode_label_key : ℕ → ℕ → List ℕ
encode_label_key label_hash node_id =
    let buf1 = write_at 0 (to_be_bytes 4 label_hash) (zeros label_key_len) in
    write_at 4 (to_be_bytes 8 node_id) buf1

unfoldable pub decode_label_key : List ℕ → ℕ × ℕ
decode_label_key key = (from_be_bytes (read_at 0 4 key), from_be_bytes (read_at 4 8 key))

unfoldable pub label_prefix_start : ℕ → List ℕ
label_prefix_start label_hash = encode_label_key label_hash 0

unfoldable pub label_prefix_end : ℕ → List ℕ
label_prefix_end label_hash = encode_label_key label_hash u64_max
