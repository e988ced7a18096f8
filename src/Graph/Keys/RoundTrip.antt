-- ===== src/Graph/Keys/RoundTrip.antt =====
-- The keys as the bytes of their fields one behind the other, and what they decode to.
use gemgraph.Base.{ℕ, ◌^◌, ◌<◌, ◌≡◌, refl, [], ◌∷◌, ◌++◌, arith, if◌then◌else◌, ◌==◌}
use gemgraph.Bytes.Be.{to_be_bytes, from_be_bytes, from_be_bytes-to_be_bytes}
use gemgraph.Bytes.Buffer.{zeros, read_at, write_at}
use gemgraph.Bytes.Fields.{byte_at, set_byte}
use gemgraph.Graph.Keys.{
  Direction, out_edges, in_edges, direction_byte, encode_adjacency_key, decode_adjacency_key,
  encode_label_key, decode_label_key,
}

pub adjacency_fields :
    (src : ℕ) (dir : Direction) (hash dst id : ℕ)
    → encode_adjacency_key src dir hash dst id
      ≡ to_be_bytes 8 src
        ++ (direction_byte dir ∷ [])
        ++ to_be_bytes 4 hash
        ++ to_be_bytes 8 dst
        ++ to_be_bytes 8 id
unfolding encode_adjacency_key to_be_bytes write_at set_byte zeros
adjacency_fields src dir hash dst id = refl

pub label_fields : (hash id : ℕ) → encode_label_key hash id ≡ to_be_bytes 4 hash ++ to_be_bytes 8 id
unfolding encode_label_key to_be_bytes write_at zeros
label_fields hash id = refl

direction_back : (dir : Direction) → (if direction_byte dir == 0 then out_edges else in_edges) ≡ dir
direction_back out_edges = refl
direction_back in_edges = refl

-- An adjacency key decodes to the fields that it was encoded from.
pub decode-encode_adjacency_key :
    (src : ℕ) (dir : Direction) (hash dst id : ℕ)
    → src < 2 ^ 64
    → hash < 2 ^ 32
    → dst < 2 ^ 64
    → id < 2 ^ 64
    → decode_adjacency_key (encode_adjacency_key src dir hash dst id) ≡ (src, dir, hash, dst, id)
unfolding decode_adjacency_key encode_adjacency_key read_at write_at byte_at set_byte zeros
    to_be_bytes from_be_bytes
decode-encode_adjacency_key src dir hash dst id h1 h2 h3 h4 = ground (
  arith,
  from_be_bytes-to_be_bytes 8 src h1,
  from_be_bytes-to_be_bytes 4 hash h2,
  from_be_bytes-to_be_bytes 8 dst h3,
  from_be_bytes-to_be_bytes 8 id h4,
  direction_back dir,
)

pub decode-encode_label_key :
    (hash id : ℕ)
    → hash < 2 ^ 32
    → id < 2 ^ 64
    → decode_label_key (encode_label_key hash id) ≡ (hash, id)
unfolding decode_label_key encode_label_key read_at write_at zeros to_be_bytes from_be_bytes
decode-encode_label_key hash id h1 h2 =
    ground (arith, from_be_bytes-to_be_bytes 4 hash h1, from_be_bytes-to_be_bytes 8 id h2)
