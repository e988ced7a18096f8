-- ===== src/Pager/FreeList.antt =====
-- crates/gemgraph-pager/src/freelist.rs: the stack of free pages and its chain of pages on disk.
-- A `Vec<PageId>` is a list whose last element is the top of the stack.
pub mod Entries
pub mod Walk
pub mod RoundTrip
use gemgraph.Base.{
  ℕ, zero, suc, ◌+◌, ◌-◌, ◌*◌, ◌/◌, List, [], ◌∷◌, ◌++◌, Option, none, some, length, take, drop,
  if◌then◌else◌, ◌==◌,
}
use gemgraph.Bytes.Buffer.{zeros}
use gemgraph.Bytes.Fields.{read_le, write_le, set_byte}
use gemgraph.Pager.Page.{page_size, page_header_size, page_payload_size, type_byte, free_list_page}

abbrev pub entries_per_page : ℕ
entries_per_page = (page_payload_size - 4) / 4

-- `Vec::pop`
unfoldable pub pop {ℓ} : {A : Type ℓ} → List A → Option A × List A
pop [] = (none, [])
pop (x ∷ []) = (some x, [])
pop (x ∷ y ∷ xs) = let (top, rest) = pop (y ∷ xs) in (top, x ∷ rest)

-- `slice::chunks(size)`, for a positive size: each round takes an element at least.
unfoldable pub chunks_loop : ℕ → ℕ → List ℕ → List (List ℕ)
chunks_loop fuel size [] = []
chunks_loop zero size (x ∷ xs) = []
chunks_loop (suc fuel) size (x ∷ xs) =
    take size (x ∷ xs) ∷ chunks_loop fuel size (drop size (x ∷ xs))

unfoldable pub chunks : ℕ → List ℕ → List (List ℕ)
unfolding chunks_loop
chunks size xs = chunks_loop (length xs) size xs

-- Offsets in the page of a position in its payload.
abbrev pub in_payload : ℕ → ℕ
in_payload off = page_header_size + off

abbrev pub count_off : ℕ
count_off = page_payload_size - 4

-- The loop over the entries of a chunk, from entry `j` on.
unfoldable pub write_entries : ℕ → List ℕ → List ℕ → List ℕ
write_entries j [] buf = buf
write_entries j (entry ∷ chunk) buf =
    write_entries (j + 1) chunk (write_le (in_payload (4 + j * 4)) 4 entry buf)

unfoldable pub chain_page : ℕ → ℕ → List ℕ → List ℕ
unfolding write_entries
chain_page pid next chunk =
    let buf1 = set_byte 0 (type_byte free_list_page) (zeros page_size) in
    let buf2 = write_le 1 4 pid buf1 in
    let buf3 = write_le (in_payload 0) 4 next buf2 in
    let buf4 = write_entries 0 chunk buf3 in write_le (in_payload count_off) 4 (length chunk) buf4

-- `chain_page_ids[i + 1].0` where there is a next chunk, and 0 where there is none.
abbrev next_of : List (List ℕ) → List ℕ → ℕ
next_of [] ids = 0
next_of (chunk ∷ chunks) [] = 0
next_of (chunk ∷ chunks) (id ∷ ids) = id

-- The indexing of `chain_page_ids` panics where the ids run out; here the pages end there.
unfoldable pub persist_chunks : List (List ℕ) → List ℕ → List (ℕ × List ℕ)
unfolding chain_page
persist_chunks [] ids = []
persist_chunks (chunk ∷ rest) [] = []
persist_chunks (chunk ∷ rest) (pid ∷ ids) =
    (pid, chain_page pid (next_of rest ids) chunk) ∷ persist_chunks rest ids

unfoldable pub persist : List ℕ → List ℕ → List (ℕ × List ℕ)
unfolding persist_chunks chunks
persist pages chain_page_ids = persist_chunks (chunks entries_per_page pages) chain_page_ids

-- The loop over `0..count`, from entry `j` on.
unfoldable pub read_entries : ℕ → ℕ → List ℕ → List ℕ
read_entries zero j buf = []
read_entries (suc count) j buf =
    read_le (in_payload (4 + j * 4)) 4 buf ∷ read_entries count (j + 1) buf

-- The walk along the chain; `none` means that the fuel ran out, as it does on a cyclic chain.
unfoldable pub restore_loop : ℕ → ℕ → (ℕ → List ℕ) → List ℕ → Option (List ℕ)
unfolding read_entries
restore_loop zero current read_fn pages = none
restore_loop (suc fuel) current read_fn pages =
    let buf = read_fn current in
    let next = read_le (in_payload 0) 4 buf in
    let count = read_le (in_payload count_off) 4 buf in
    let rest = restore_loop fuel next read_fn (pages ++ read_entries count 0 buf) in
    if current == 0 then some pages else rest

unfoldable pub restore : ℕ → ℕ → (ℕ → List ℕ) → Option (List ℕ)
unfolding restore_loop
restore fuel head read_fn = restore_loop fuel head read_fn []

unfoldable pub chain_pages_needed : List ℕ → ℕ
chain_pages_needed [] = 0
chain_pages_needed (x ∷ pages) = (length (x ∷ pages) + entries_per_page - 1) / entries_per_page

-- `if chain_ids.is_empty() { 0 } else { chain_ids[0].0 }` of `Pager::commit_meta`.
abbrev pub chain_head : List ℕ → ℕ
chain_head [] = 0
chain_head (id ∷ ids) = id
