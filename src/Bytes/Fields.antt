-- ===== src/Bytes/Fields.antt =====
-- Integer fields of a fixed buffer: little-endian, at an offset.
use gemgraph.Base.{
  ℕ, ◌+◌, ◌≤◌, ◌<◌, ◌^◌, ◌≡◌, ap, sym, ◌∙◌, ◌⊎◌, inl, inr, List, [], ◌∷◌, length, arith,
}
use gemgraph.Bytes.Le.{to_le_bytes, from_le_bytes, length-to_le_bytes, from_le_bytes-to_le_bytes}
use gemgraph.Bytes.Buffer.{
  read_at, write_at, length-write_at, read_at-write_at_self, read_at-write_at_after,
  read_at-write_at_before,
}

-- `from_le_bytes(buf[off..off + w])`
unfoldable pub read_le : ℕ → ℕ → List ℕ → ℕ
read_le off w buf = from_le_bytes (read_at off w buf)

-- `buf[off..off + w].copy_from_slice(&v.to_le_bytes())`
unfoldable pub write_le : ℕ → ℕ → ℕ → List ℕ → List ℕ
write_le off w v buf = write_at off (to_le_bytes w v) buf

abbrev pub head_or_zero : List ℕ → ℕ
head_or_zero [] = 0
head_or_zero (b ∷ bs) = b

-- `buf[off]`
unfoldable pub byte_at : ℕ → List ℕ → ℕ
byte_at off buf = head_or_zero (read_at off 1 buf)

-- `buf[off] = b`
unfoldable pub set_byte : ℕ → ℕ → List ℕ → List ℕ
set_byte off b buf = write_at off (b ∷ []) buf

pub length-write_le : (off w v : ℕ) (buf : List ℕ) → length (write_le off w v buf) ≡ length buf
unfolding write_le
length-write_le off w v buf = length-write_at off (to_le_bytes w v) buf

pub length-set_byte : (off b : ℕ) (buf : List ℕ) → length (set_byte off b buf) ≡ length buf
unfolding set_byte
length-set_byte off b buf = length-write_at off (b ∷ []) buf

-- Two ranges of the buffer that do not meet.
abbrev pub Apart : ℕ → ℕ → ℕ → ℕ → Type 0
Apart o n off w = (o + n ≤ off) ⊎ (off + w ≤ o)

pub read_at-write_at-Apart :
    (o n off : ℕ) (bs buf : List ℕ)
    → Apart o n off (length bs)
    → read_at o n (write_at off bs buf) ≡ read_at o n buf
read_at-write_at-Apart o n off bs buf (inl h) = read_at-write_at_before o n off bs buf h
read_at-write_at-Apart o n off bs buf (inr h) = read_at-write_at_after o n off bs buf h

pub read_at-write_le-Apart :
    (o n off w v : ℕ) (buf : List ℕ)
    → Apart o n off w
    → read_at o n (write_le off w v buf) ≡ read_at o n buf
unfolding write_le
read_at-write_le-Apart o n off w v buf h =
    read_at-write_at-Apart o n off (to_le_bytes w v) buf (rw length-to_le_bytes h)

pub read_at-set_byte-Apart :
    (o n off b : ℕ) (buf : List ℕ)
    → Apart o n off 1
    → read_at o n (set_byte off b buf) ≡ read_at o n buf
unfolding set_byte
read_at-set_byte-Apart o n off b buf h = read_at-write_at-Apart o n off (b ∷ []) buf h

-- A field reads back as written, where the value fits.
pub read_le-write_le_self :
    (off w v : ℕ) (buf : List ℕ)
    → off + w ≤ length buf
    → v < 256 ^ w
    → read_le off w (write_le off w v buf) ≡ v
unfolding read_le write_le
read_le-write_le_self off w v buf fits h =
    ap (λ k. from_le_bytes (read_at off k (write_at off (to_le_bytes w v) buf)))
      (sym (length-to_le_bytes w v))
    ∙ ap from_le_bytes
        (read_at-write_at_self off (to_le_bytes w v) buf (rw length-to_le_bytes fits))
    ∙ from_le_bytes-to_le_bytes w v h

pub read_le-write_le-Apart :
    (o n off w v : ℕ) (buf : List ℕ)
    → Apart o n off w
    → read_le o n (write_le off w v buf) ≡ read_le o n buf
unfolding read_le
read_le-write_le-Apart o n off w v buf h =
    ap from_le_bytes (read_at-write_le-Apart o n off w v buf h)

pub byte_at-set_byte_self :
    (off b : ℕ) (buf : List ℕ) → off < length buf → byte_at off (set_byte off b buf) ≡ b
unfolding byte_at set_byte
byte_at-set_byte_self off b buf h =
    ap head_or_zero (read_at-write_at_self off (b ∷ []) buf (omega arith))

pub byte_at-write_le-Apart :
    (o off w v : ℕ) (buf : List ℕ)
    → Apart o 1 off w
    → byte_at o (write_le off w v buf) ≡ byte_at o buf
unfolding byte_at
byte_at-write_le-Apart o off w v buf h = ap head_or_zero (read_at-write_le-Apart o 1 off w v buf h)
