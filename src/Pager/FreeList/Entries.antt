-- ===== src/Pager/FreeList/Entries.antt =====
-- The entries of a chain page: what fits below the count reads back, and the last entry of a full
-- page shares a byte with the count.
use mathlib.Core.Path.{ap₂}
use gemgraph.Base.{
  ℕ, zero, suc, ◌+◌, ◌*◌, ◌^◌, ◌%◌, ◌≤◌, ◌<◌, ◌≡◌, refl, ap, sym, ◌∙◌, inl, List, [], ◌∷◌, ◌++◌,
  length, length-append, All, arith,
}
use gemgraph.Bytes.Le.{to_le_bytes, from_le_bytes}
use gemgraph.Bytes.Buffer.{
  zeros, length-zeros, read_at, write_at, read_at-add, read_at-write_at_inside, length-write_at,
}
use gemgraph.Bytes.Fields.{
  read_le, write_le, set_byte, length-write_le, length-set_byte, read_le-write_le_self,
  read_le-write_le-Apart, read_at-write_at-Apart,
}
use gemgraph.Pager.Page.{type_byte, free_list_page}
use gemgraph.Pager.FreeList.{write_entries, read_entries, chain_page, in_payload}

abbrev pub IsId : ℕ → Type 0
IsId id = id < 2 ^ 32

length-write_entries :
    (j : ℕ) (chunk buf : List ℕ) → length (write_entries j chunk buf) ≡ length buf
unfolding write_entries
length-write_entries j [] buf = refl
length-write_entries j (entry ∷ chunk) buf =
    length-write_entries (j + 1) chunk (write_le (in_payload (4 + j * 4)) 4 entry buf)
    ∙ length-write_le (in_payload (4 + j * 4)) 4 entry buf

-- What lies before the entries is left alone.
read_le-write_entries_before :
    (o w j : ℕ) (chunk buf : List ℕ)
    → o + w ≤ in_payload (4 + j * 4)
    → read_le o w (write_entries j chunk buf) ≡ read_le o w buf
unfolding write_entries
read_le-write_entries_before o w j [] buf h = refl
read_le-write_entries_before o w j (entry ∷ chunk) buf h =
    read_le-write_entries_before o w (j + 1) chunk (write_le (in_payload (4 + j * 4)) 4 entry buf)
      (omega arith)
    ∙ read_le-write_le-Apart o w (in_payload (4 + j * 4)) 4 entry buf (inl h)

pub read-write_entries :
    (j : ℕ) (chunk buf : List ℕ)
    → All IsId chunk
    → in_payload (4 + j * 4) + length chunk * 4 ≤ length buf
    → read_entries (length chunk) j (write_entries j chunk buf) ≡ chunk
unfolding read_entries write_entries
read-write_entries j [] buf ids fits = refl
read-write_entries j (entry ∷ chunk) buf ids fits =
    let off = in_payload (4 + j * 4) in
    let buf' = write_le off 4 entry buf in
    let here : read_le off 4 (write_entries (j + 1) chunk buf') ≡ entry =
      read_le-write_entries_before off 4 (j + 1) chunk buf' (omega arith)
      ∙ read_le-write_le_self off 4 entry buf (omega arith) ids.0 in
    rw (
      here,
      read-write_entries (j + 1) chunk buf' ids.1 (omega (arith, length-write_le off 4 entry buf)),
    )

-- A field behind the entries that are read does not change them.
read_entries-write_le :
    (count j off w v : ℕ) (buf : List ℕ)
    → in_payload (4 + j * 4) + count * 4 ≤ off
    → read_entries count j (write_le off w v buf) ≡ read_entries count j buf
unfolding read_entries
read_entries-write_le zero j off w v buf h = refl
read_entries-write_le (suc count) j off w v buf h = rw (
  read_le-write_le-Apart (in_payload (4 + j * 4)) 4 off w v buf (inl (omega arith)),
  read_entries-write_le count (j + 1) off w v buf (omega arith),
)

module _ (pid next : ℕ) (chunk : List ℕ) where
  abbrev head : List ℕ
  head = write_le 5 4 next (write_le 1 4 pid (set_byte 0 (type_byte free_list_page) (zeros 4096)))

  head_size : length head ≡ 4096
  head_size =
      length-write_le 5 4 next
        (write_le 1 4 pid (set_byte 0 (type_byte free_list_page) (zeros 4096)))
      ∙ length-write_le 1 4 pid (set_byte 0 (type_byte free_list_page) (zeros 4096))
      ∙ length-set_byte 0 (type_byte free_list_page) (zeros 4096)
      ∙ length-zeros 4096

  filled_size : length (write_entries 0 chunk head) ≡ 4096
  filled_size = length-write_entries 0 chunk head ∙ head_size

  pub chain_page-next : next < 2 ^ 32 → read_le 5 4 (chain_page pid next chunk) ≡ next
  unfolding chain_page
  chain_page-next h =
      read_le-write_le-Apart 5 4 4092 4 (length chunk) (write_entries 0 chunk head)
        (inl (omega arith))
      ∙ read_le-write_entries_before 5 4 0 chunk head (omega arith)
      ∙ read_le-write_le_self 5 4 next
          (write_le 1 4 pid (set_byte 0 (type_byte free_list_page) (zeros 4096)))
          (omega (
            arith,
            length-write_le 1 4 pid (set_byte 0 (type_byte free_list_page) (zeros 4096)),
            length-set_byte 0 (type_byte free_list_page) (zeros 4096),
            length-zeros 4096,
          ))
          h

  pub chain_page-count :
      length chunk < 2 ^ 32 → read_le 4092 4 (chain_page pid next chunk) ≡ length chunk
  unfolding chain_page
  chain_page-count h =
      read_le-write_le_self 4092 4 (length chunk) (write_entries 0 chunk head)
        (omega (arith, filled_size)) h

  -- A chunk of fewer entries than a page is said to hold reads back.
  pub chain_page-entries :
      All IsId chunk
      → length chunk < 1021
      → read_entries (length chunk) 0 (chain_page pid next chunk) ≡ chunk
  unfolding chain_page
  chain_page-entries ids h =
      read_entries-write_le (length chunk) 0 4092 4 (length chunk) (write_entries 0 chunk head)
        (omega arith)
      ∙ read-write_entries 0 chunk head ids (omega (arith, head_size))

-- The value that the last entry of a full page reads back as: its top byte is the low byte of 1021.
abbrev pub clobbered : ℕ → ℕ
clobbered id = id % 2 ^ 24 + 253 * 2 ^ 24

last_entry :
    (id : ℕ) (buf : List ℕ)
    → 4096 ≤ length buf
    → read_le 4089 4 (write_le 4092 4 1021 (write_le 4089 4 id buf)) ≡ clobbered id
unfolding read_le write_le to_le_bytes from_le_bytes read_at
last_entry id buf size =
    let bytes = to_le_bytes 4 id in
    let count = to_le_bytes 4 1021 in
    let b1 = write_at 4089 bytes buf in
    let b2 = write_at 4092 count b1 in
    let n1 = length-write_at 4089 bytes buf in
    let low : read_at 4089 3 b2 ≡ read_at 0 3 bytes =
      read_at-write_at-Apart 4089 3 4092 count b1 (inl (omega arith))
      ∙ read_at-write_at_inside 4089 0 3 bytes buf (omega arith) (omega arith) in
    let high : read_at 4092 1 b2 ≡ read_at 0 1 count =
      read_at-write_at_inside 4092 0 1 count b1 (omega arith) (omega (arith, n1)) in
    ap from_le_bytes (read_at-add 4089 3 1 b2 ∙ ap₂ (λ (xs ys : List ℕ). xs ++ ys) low high)
    ∙ omega arith

next_slot : (j m : ℕ) → in_payload (4 + (j + 1 + m) * 4) ≡ in_payload (4 + (j + suc m) * 4)
next_slot j m = omega arith

-- The last entry is written and read last.
write_entries-last :
    (j : ℕ) (xs : List ℕ) (id : ℕ) (buf : List ℕ)
    → write_entries j (xs ++ id ∷ []) buf
      ≡ write_le (in_payload (4 + (j + length xs) * 4)) 4 id (write_entries j xs buf)
unfolding write_entries
write_entries-last j [] id buf = ap (λ k. write_le k 4 id buf) (omega arith)
write_entries-last j (x ∷ xs) id buf =
    let buf' = write_le (in_payload (4 + j * 4)) 4 x buf in
    write_entries-last (j + 1) xs id buf'
    ∙ ap (λ k. write_le k 4 id (write_entries (j + 1) xs buf')) (next_slot j (length xs))

read_entries-last :
    (m j : ℕ) (buf : List ℕ)
    → read_entries (suc m) j buf
      ≡ read_entries m j buf ++ read_le (in_payload (4 + (j + m) * 4)) 4 buf ∷ []
unfolding read_entries
read_entries-last zero j buf = ap (λ k. read_le k 4 buf ∷ []) (omega arith)
read_entries-last (suc m) j buf =
    ap (λ (l : List ℕ). read_le (in_payload (4 + j * 4)) 4 buf ∷ l)
      (read_entries-last m (j + 1) buf
        ∙ ap (λ k. read_entries m (j + 1) buf ++ read_le k 4 buf ∷ []) (next_slot j m))

-- A full page: every entry but the last reads back, and the last loses its top byte to the count.
pub chain_page-full :
    (pid next : ℕ) (xs : List ℕ) (id : ℕ)
    → All IsId xs
    → length xs ≡ 1020
    → read_entries 1021 0 (chain_page pid next (xs ++ id ∷ [])) ≡ xs ++ clobbered id ∷ []
unfolding chain_page
chain_page-full pid next xs id ids size =
    let h = head pid next xs in
    let e = write_entries 0 xs h in
    let page = write_le 4092 4 1021 (write_le 4089 4 id e) in
    let slot : in_payload (4 + (0 + length xs) * 4) ≡ 4089 = omega arith in
    let same : chain_page pid next (xs ++ id ∷ []) ≡ page =
      ap₂ (λ k (b : List ℕ). write_le 4092 4 k b) (omega (arith, length-append xs (id ∷ [])))
        (write_entries-last 0 xs id h ∙ ap (λ k. write_le k 4 id e) slot) in
    let front : read_entries 1020 0 page ≡ xs =
      read_entries-write_le 1020 0 4092 4 1021 (write_le 4089 4 id e) (omega arith)
      ∙ read_entries-write_le 1020 0 4089 4 id e (omega arith)
      ∙ ap (λ k. read_entries k 0 e) (sym size)
      ∙ read-write_entries 0 xs h ids (omega (arith, head_size pid next xs)) in
    ap (read_entries 1021 0) same
    ∙ read_entries-last 1020 0 page
    ∙ ap₂ (λ (l : List ℕ) v. l ++ v ∷ []) front
        (last_entry id e (omega (arith, length-write_entries 0 xs h, head_size pid next xs)))
