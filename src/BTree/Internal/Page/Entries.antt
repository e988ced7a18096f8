-- ===== src/BTree/Internal/Page/Entries.antt =====
-- The loop that writes the entries of an internal node, and the loop that reads them back.
use gemgraph.Base.{
  ℕ, ◌+◌, ◌*◌, ◌-◌, ◌^◌, ◌≤◌, ◌<◌, ◌≡◌, refl, ap, ◌∙◌, inl, List, [], ◌∷◌, length, drop,
  ltb-eq-false, ok, All, arith,
}
use gemgraph.Bytes.Le.{to_le_bytes, from_le_bytes, length-to_le_bytes}
use gemgraph.Bytes.Buffer.{read_at, write_at, length-write_at}
use gemgraph.Bytes.Fields.{read_le, write_le, Apart, length-write_le}
use gemgraph.Bytes.Writes.{
  apply_writes, length-apply_writes, read_at-apply_writes-Apart, read_at-first_write-Apart,
  read_le-first_write-Apart,
}
use gemgraph.BTree.Leaf.Page.{read_u16, write_u16}
use gemgraph.BTree.Internal.{InternalEntry, used}
use gemgraph.BTree.Internal.Page.{read_u32, write_u32, write_entry, write_entries, read_entries}

abbrev pub slot : ℕ → ℕ
slot i = 13 + i * 8

module _ (i c : ℕ) (e : InternalEntry) where
  abbrev slot_writes : List (ℕ × List ℕ)
  slot_writes =
      (slot i, to_le_bytes 2 (length e.key))
      ∷ (slot i + 2, to_le_bytes 2 c)
      ∷ (slot i + 4, to_le_bytes 4 e.child)
      ∷ []

  -- What lies apart from the slot lies apart from its fields.
  slot_writes-Apart :
      (o n : ℕ) → Apart o n (slot i) 8 → All (λ w. Apart o n w.0 (length w.1)) slot_writes
  slot_writes-Apart o n h = (
    omega (arith, length-to_le_bytes 2 (length e.key)),
    (omega (arith, length-to_le_bytes 2 c), (omega (arith, length-to_le_bytes 4 e.child), tt)),
  )

  write_entry-eq-writes :
      (buf : List ℕ) → write_entry i c e buf ≡ apply_writes ((c, e.key) ∷ slot_writes) buf
  unfolding write_entry write_u16 write_u32 write_le
  write_entry-eq-writes buf = refl

  length-write_entry : (buf : List ℕ) → length (write_entry i c e buf) ≡ length buf
  length-write_entry buf =
      ap length (write_entry-eq-writes buf) ∙ length-apply_writes ((c, e.key) ∷ slot_writes) buf

  -- What an entry's round leaves alone.
  write_entry-outside :
      (o n : ℕ) (buf : List ℕ)
      → Apart o n (slot i) 8
      → Apart o n c (length e.key)
      → read_at o n (write_entry i c e buf) ≡ read_at o n buf
  write_entry-outside o n buf h k =
      ap (read_at o n) (write_entry-eq-writes buf)
      ∙ read_at-apply_writes-Apart o n ((c, e.key) ∷ slot_writes) buf (k, slot_writes-Apart o n h)

-- What the loop leaves alone.
pub write_entries-outside :
    (i c : ℕ) (es : List InternalEntry) (o n : ℕ) (buf : List ℕ)
    → used es ≤ c
    → Apart o n (slot i) (length es * 8)
    → Apart o n (c - used es) (used es)
    → read_at o n (write_entries i c es buf).0 ≡ read_at o n buf
unfolding write_entries used
write_entries-outside i c [] o n buf fits h k = refl
write_entries-outside i c (e ∷ es) o n buf fits h k =
    let c' = c - length e.key in
    write_entries-outside (i + 1) c' es o n (write_entry i c' e buf) (omega arith) (omega arith)
      (omega arith)
    ∙ write_entry-outside i c' e o n buf (omega arith) (omega arith)

-- The entry that a round writes reads back.
module _ (i c : ℕ) (e : InternalEntry) (buf : List ℕ) (size : length buf ≡ 4096)
    (before : slot i + 8 ≤ c) (inside : c + length e.key ≤ 4096) where
  abbrev buf1 : List ℕ
  buf1 = write_at c e.key buf

  abbrev buf2 : List ℕ
  buf2 = write_u16 (slot i) (length e.key) buf1

  abbrev buf3 : List ℕ
  buf3 = write_u16 (slot i + 2) c buf2

  size1 : length buf1 ≡ 4096
  size1 = length-write_at c e.key buf ∙ size

  size2 : length buf2 ≡ 4096
  unfolding write_u16
  size2 = length-write_le (slot i) 2 (length e.key) buf1 ∙ size1

  size3 : length buf3 ≡ 4096
  unfolding write_u16
  size3 = length-write_le (slot i + 2) 2 c buf2 ∙ size2

  write_entry-key : read_at c (length e.key) (write_entry i c e buf) ≡ e.key
  write_entry-key =
      ap (read_at c (length e.key)) (write_entry-eq-writes i c e buf)
      ∙ read_at-first_write-Apart c e.key (slot_writes i c e) buf (omega arith)
          (slot_writes-Apart i c e c (length e.key) (omega arith))

  write_entry-key_len : read_u16 (write_entry i c e buf) (slot i) ≡ length e.key
  unfolding write_entry write_u16 write_u32 write_le read_u16 read_le
  write_entry-key_len =
      read_le-first_write-Apart (slot i) 2 (length e.key) (drop 1 (slot_writes i c e)) buf1
        (omega (arith, size1)) (omega arith) (inl (omega arith), (inl (omega arith), tt))

  write_entry-data_off : read_u16 (write_entry i c e buf) (slot i + 2) ≡ c
  unfolding write_entry write_u16 write_u32 write_le read_u16 read_le
  write_entry-data_off =
      read_le-first_write-Apart (slot i + 2) 2 c (drop 2 (slot_writes i c e)) buf2
        (omega (arith, size2)) (omega arith) (inl (omega arith), tt)

  write_entry-child : e.child < 2 ^ 32 → read_u32 (write_entry i c e buf) (slot i + 4) ≡ e.child
  unfolding write_entry write_u16 write_u32 write_le read_u32 read_le
  write_entry-child small =
      read_le-first_write-Apart (slot i + 4) 4 e.child [] buf3 (omega (arith, size3)) small tt

-- A number or a slice that the rest of the loop leaves alone, in a page that is the loop's from the
-- slots on.
module _ (i c : ℕ) (es : List InternalEntry) (buf out : List ℕ)
    (agree : (o n : ℕ) → 13 ≤ o → read_at o n out ≡ read_at o n (write_entries i c es buf).0)
    (o n : ℕ) (behind : 13 ≤ o) (fits : used es ≤ c) (front : Apart o n (slot i) (length es * 8))
    (back : Apart o n (c - used es) (used es)) where
  kept : read_at o n out ≡ read_at o n buf
  kept = agree o n behind ∙ write_entries-outside i c es o n buf fits front back

  kept_u16 : n ≡ 2 → read_u16 out o ≡ read_u16 buf o
  unfolding read_u16 read_le
  kept_u16 two = ap from_le_bytes (rw two at kept)

  kept_u32 : n ≡ 4 → read_u32 out o ≡ read_u32 buf o
  unfolding read_u32 read_le
  kept_u32 four = ap from_le_bytes (rw four at kept)

abbrev pub HasPageId : InternalEntry → Type 0
HasPageId e = e.child < 2 ^ 32

pub read-write_entries :
    (i c : ℕ) (es : List InternalEntry) (buf out : List ℕ)
    → ((o n : ℕ) → 13 ≤ o → read_at o n out ≡ read_at o n (write_entries i c es buf).0)
    → length buf ≡ 4096
    → slot i + length es * 8 + used es ≤ c
    → c ≤ 4096
    → All HasPageId es
    → read_entries (length es) i out ≡ ok es
unfolding read_entries write_entries used
read-write_entries i c [] buf out agree size before inside small = refl
read-write_entries i c (e ∷ es) buf out agree size before inside small =
    let c' = c - length e.key in
    let buf' = write_entry i c' e buf in
    let rest =
      read-write_entries (i + 1) c' es buf' out agree (length-write_entry i c' e buf ∙ size)
        (omega arith) (omega arith) small.1 in
    let b : slot i + 8 ≤ c' = omega arith in
    let r : c' + length e.key ≤ 4096 = omega arith in
    let f : used es ≤ c' = omega arith in
    rw
      (
        kept_u16 (i + 1) c' es buf' out agree (slot i) 2 (omega arith) f (omega arith) (omega arith)
            refl,
        kept_u16 (i + 1) c' es buf' out agree (slot i + 2) 2 (omega arith) f (omega arith)
            (omega arith) refl,
        kept_u32 (i + 1) c' es buf' out agree (slot i + 4) 4 (omega arith) f (omega arith)
            (omega arith) refl,
        write_entry-key_len i c' e buf size b r,
        write_entry-data_off i c' e buf size b r,
        write_entry-child i c' e buf size b r small.0,
        kept (i + 1) c' es buf' out agree c' (length e.key) (omega arith) f (omega arith)
            (omega arith),
        write_entry-key i c' e buf size b r,
        rest,
        ltb-eq-false 4096 (c' + length e.key) (omega arith),
      )
      refl
