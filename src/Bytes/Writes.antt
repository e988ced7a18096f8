-- ===== src/Bytes/Writes.antt =====
-- A run of writes into one buffer, and what it leaves alone.
use gemgraph.Base.{ℕ, ◌+◌, ◌≤◌, ◌<◌, ◌^◌, ◌≡◌, refl, ap, ◌∙◌, List, [], ◌∷◌, length, All}
use gemgraph.Bytes.Le.{to_le_bytes, from_le_bytes}
use gemgraph.Bytes.Buffer.{
  read_at, write_at, length-write_at, read_at-write_at_self, read_at-write_at_before,
}
use gemgraph.Bytes.Fields.{Apart, read_at-write_at-Apart, read_le, write_le, read_le-write_le_self}

abbrev pub apply_writes : List (ℕ × List ℕ) → List ℕ → List ℕ
apply_writes [] buf = buf
apply_writes ((off, bs) ∷ ws) buf = apply_writes ws (write_at off bs buf)

pub length-apply_writes :
    (ws : List (ℕ × List ℕ)) (buf : List ℕ) → length (apply_writes ws buf) ≡ length buf
length-apply_writes [] buf = refl
length-apply_writes ((off, bs) ∷ ws) buf =
    length-apply_writes ws (write_at off bs buf) ∙ length-write_at off bs buf

-- Writes that all start behind a slice leave it alone.
pub read_at-apply_writes :
    (o n : ℕ) (ws : List (ℕ × List ℕ)) (buf : List ℕ)
    → All (λ w. o + n ≤ w.0) ws
    → read_at o n (apply_writes ws buf) ≡ read_at o n buf
read_at-apply_writes o n [] buf h = refl
read_at-apply_writes o n ((off, bs) ∷ ws) buf h =
    read_at-apply_writes o n ws (write_at off bs buf) h.1
    ∙ read_at-write_at_before o n off bs buf h.0

-- A slice that is written first and not again.
pub read_at-first_write :
    (o : ℕ) (bs : List ℕ) (ws : List (ℕ × List ℕ)) (buf : List ℕ)
    → o + length bs ≤ length buf
    → All (λ w. o + length bs ≤ w.0) ws
    → read_at o (length bs) (apply_writes ((o, bs) ∷ ws) buf) ≡ bs
read_at-first_write o bs ws buf fits h =
    read_at-apply_writes o (length bs) ws (write_at o bs buf) h
    ∙ read_at-write_at_self o bs buf fits

-- An integer that is written first and not again.
pub read_le-first_write :
    (o w v : ℕ) (ws : List (ℕ × List ℕ)) (buf : List ℕ)
    → o + w ≤ length buf
    → v < 256 ^ w
    → All (λ x. o + w ≤ x.0) ws
    → read_le o w (apply_writes ((o, to_le_bytes w v) ∷ ws) buf) ≡ v
unfolding read_le
read_le-first_write o w v ws buf fits h behind =
    ap from_le_bytes (read_at-apply_writes o w ws (write_at o (to_le_bytes w v) buf) behind)
    ∙ unfold write_le in read_le-write_le_self o w v buf fits h

-- Writes that are all apart from a slice leave it alone.
pub read_at-apply_writes-Apart :
    (o n : ℕ) (ws : List (ℕ × List ℕ)) (buf : List ℕ)
    → All (λ w. Apart o n w.0 (length w.1)) ws
    → read_at o n (apply_writes ws buf) ≡ read_at o n buf
read_at-apply_writes-Apart o n [] buf h = refl
read_at-apply_writes-Apart o n ((off, bs) ∷ ws) buf h =
    read_at-apply_writes-Apart o n ws (write_at off bs buf) h.1
    ∙ read_at-write_at-Apart o n off bs buf h.0

-- A slice that is written first and that all later writes are apart from.
pub read_at-first_write-Apart :
    (o : ℕ) (bs : List ℕ) (ws : List (ℕ × List ℕ)) (buf : List ℕ)
    → o + length bs ≤ length buf
    → All (λ w. Apart o (length bs) w.0 (length w.1)) ws
    → read_at o (length bs) (apply_writes ((o, bs) ∷ ws) buf) ≡ bs
read_at-first_write-Apart o bs ws buf fits h =
    read_at-apply_writes-Apart o (length bs) ws (write_at o bs buf) h
    ∙ read_at-write_at_self o bs buf fits

pub read_le-first_write-Apart :
    (o w v : ℕ) (ws : List (ℕ × List ℕ)) (buf : List ℕ)
    → o + w ≤ length buf
    → v < 256 ^ w
    → All (λ x. Apart o w x.0 (length x.1)) ws
    → read_le o w (apply_writes ((o, to_le_bytes w v) ∷ ws) buf) ≡ v
unfolding read_le
read_le-first_write-Apart o w v ws buf fits h apart =
    ap from_le_bytes (read_at-apply_writes-Apart o w ws (write_at o (to_le_bytes w v) buf) apart)
    ∙ unfold write_le in read_le-write_le_self o w v buf fits h
