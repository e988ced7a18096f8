-- ===== src/Pager/Store.antt =====
-- crates/gemgraph-pager/src/pager.rs: `Pager`, the data file behind a write-through LRU page cache,
-- with page allocation and the two-slot commit of the meta page.
-- `crc32c` is the checksum of the crate of that name.
pub mod Coherence
pub mod Reads
pub mod Commit
pub mod Slots
pub mod Atomic
use gemgraph.Base.{
  ℕ, zero, suc, ◌+◌, ◌-◌, ◌%◌, ◌^◌, List, [], ◌∷◌, ◌++◌, Option, none, some, length, if◌then◌else◌,
  ◌==◌, leb, Result, ok, err, Method, and_then, ◌>>◌,
}
use gemgraph.Base.Assoc.{lookup, without, insert}
use gemgraph.Bytes.Buffer.{zeros}
use gemgraph.Bytes.Fields.{read_le, write_le}
use gemgraph.Pager.Page.{page_size}
use gemgraph.Pager.Meta.{Meta, new_initial, to_page, update_checksum, pick_active_meta}
use gemgraph.Pager.FreeList.{pop, persist, restore, chain_pages_needed, chain_head}
use gemgraph.Pager.Disk.{PagerError, corrupt_meta, Disk, write_all_at, sync_data, read_page_raw}

abbrev pub default_cache_capacity : ℕ
default_cache_capacity = 4096

pub record Pager : Type 0 where
  pub file : Disk
  pub meta : Meta
  pub meta_slot : ℕ
  pub freelist : List ℕ
  pub freelist_head : ℕ
  pub cache : List (ℕ × List ℕ)
  pub lru_order : List ℕ
  pub cache_capacity : ℕ

-- A call on the pager's file.
abbrev pub on_disk :
    (Disk → Result (Unit {0}) PagerError × Disk) → Method Pager PagerError (Unit {0})
on_disk call p = let (r, d) = call p.file in (r, record p { file = d })

-- `Vec::remove` at the first position of `key`.
unfoldable pub remove_first : ℕ → List ℕ → List ℕ
remove_first key [] = []
remove_first key (k ∷ ks) = let rest = remove_first key ks in if k == key then ks else k ∷ rest

-- `retain(|&k| k != key)`
unfoldable pub retain_ne : ℕ → List ℕ → List ℕ
retain_ne key [] = []
retain_ne key (k ∷ ks) = let rest = retain_ne key ks in if k == key then rest else k ∷ rest

-- Most recently used at the back.
unfoldable pub touch_lru : ℕ → Pager → Pager
unfolding remove_first
touch_lru key p = record p { lru_order = remove_first key p.lru_order ++ key ∷ [] }

-- The entry at the front of the order goes.
abbrev evict : Pager → List ℕ → Pager
evict p [] = p
evict p (evict_key ∷ rest) = record p { cache = without evict_key p.cache; lru_order = rest }

abbrev store : ℕ → List ℕ → Pager → Pager
store key page p = record p { cache = insert key page p.cache; lru_order = p.lru_order ++ key ∷ [] }

unfoldable pub make_room : Pager → Pager
make_room p = if leb p.cache_capacity (length p.cache) then evict p p.lru_order else p

unfoldable pub cache_insert : ℕ → List ℕ → Pager → Pager
unfolding insert
cache_insert key page p = store key page (make_room p)

abbrev fetched : ℕ → Result (List ℕ) PagerError → Method Pager PagerError (List ℕ)
fetched id (ok page) p = (ok page, cache_insert id page p)
fetched id (err e) p = (err e, p)

abbrev served : ℕ → Option (List ℕ) → Method Pager PagerError (List ℕ)
served id (some page) p = (ok page, touch_lru id p)
served id none p = fetched id (read_page_raw p.file id) p

unfoldable pub read_page : ℕ → Method Pager PagerError (List ℕ)
unfolding touch_lru cache_insert
read_page id p = served id (lookup id p.cache) p

-- `self.cache.insert` of a key that is there, and `cache_insert` of one that is not.
abbrev refresh : ℕ → List ℕ → Option (List ℕ) → Pager → Pager
refresh id page (some old) p = touch_lru id (record p { cache = insert id page p.cache })
refresh id page none p = cache_insert id page p

unfoldable pub write_page : ℕ → List ℕ → Method Pager PagerError (Unit {0})
unfolding touch_lru cache_insert
write_page id page =
    on_disk (write_all_at id page) >> λ p. (ok tt, refresh id page (lookup id p.cache) p)

abbrev alloc_outcome : Option ℕ × List ℕ → Pager → ℕ × Pager
alloc_outcome (some id, rest) p = (id, record p { freelist = rest })
alloc_outcome (none, rest) p =
    let id = p.meta.next_page_id in
    (id, record p { meta = record p.meta { next_page_id = (id + 1) % 2 ^ 32 } })

unfoldable pub alloc_page : Pager → ℕ × Pager
unfolding pop
alloc_page p = alloc_outcome (pop p.freelist) p

unfoldable pub free_page : ℕ → Pager → Pager
unfolding retain_ne without
free_page id p = record p {
  freelist = p.freelist ++ id ∷ [];
  cache = without id p.cache;
  lru_order = retain_ne id p.lru_order;
}

-- Chain pages are allocated behind `next_page_id`, never from the freelist.
unfoldable pub alloc_chain : ℕ → Meta → List ℕ × Meta
alloc_chain zero m = ([], m)
alloc_chain (suc needed) m =
    let (ids, m') =
      alloc_chain needed (record m { next_page_id = (m.next_page_id + 1) % 2 ^ 32 }) in
    (m.next_page_id ∷ ids, m')

unfoldable pub write_pages : List (ℕ × List ℕ) → Method Pager PagerError (Unit {0})
write_pages [] p = (ok tt, p)
write_pages ((id, page) ∷ rest) p = and_then (write_page id page p) (λ _. write_pages rest)

abbrev pub freelist_head_offset : ℕ
freelist_head_offset = 5 + 32 + 4

unfoldable pub read_freelist_head : List ℕ → ℕ
read_freelist_head page = read_le freelist_head_offset 4 page

unfoldable pub write_freelist_head : ℕ → List ℕ → List ℕ
write_freelist_head head page = write_le freelist_head_offset 4 head page

abbrev pub set_meta : Meta → ℕ → ℕ → Method Pager PagerError (Unit {0})
set_meta m slot head p = (ok tt, record p { meta = m; meta_slot = slot; freelist_head = head })

unfoldable pub sync : Method Pager PagerError (Unit {0})
sync = on_disk sync_data

-- `unwrap_or([0u8; PAGE_SIZE])`
abbrev page_or_zeros : Result (List ℕ) PagerError → List ℕ
page_or_zeros (ok page) = page
page_or_zeros (err e) = zeros page_size

abbrev fresh : Disk → Meta → ℕ → List ℕ → ℕ → Pager
fresh d m slot freelist head = record {
  file = d;
  meta = m;
  meta_slot = slot;
  freelist = freelist;
  freelist_head = head;
  cache = [];
  lru_order = [];
  cache_capacity = default_cache_capacity;
}

-- The freelist of a file whose active meta page is given. `none` means that the chain is longer
-- than the file has pages, which is a cycle, on which the walk of the source does not return.
unfoldable pub load_freelist : Disk → List ℕ → Option (List ℕ)
load_freelist d active_page =
    let head = read_freelist_head active_page in
    if head == 0
    then some []
    else restore (length d.pages + 2) head (λ id. page_or_zeros (read_page_raw d id))

module _ (crc32c : List ℕ → ℕ) where
  -- What `commit_meta` writes to the other slot.
  abbrev pub committed_meta : Pager → Meta → Meta
  committed_meta p new_meta =
      update_checksum crc32c (alloc_chain (chain_pages_needed p.freelist) new_meta).1

  abbrev pub chain_ids : Pager → Meta → List ℕ
  chain_ids p new_meta = (alloc_chain (chain_pages_needed p.freelist) new_meta).0

  abbrev pub meta_page_of : Pager → Meta → List ℕ
  meta_page_of p new_meta =
      write_freelist_head (chain_head (chain_ids p new_meta))
        (to_page (committed_meta p new_meta) (1 - p.meta_slot))

  unfoldable pub commit_meta : Meta → Method Pager PagerError (Unit {0})
  unfolding write_pages
  commit_meta new_meta p =
      let next_slot = 1 - p.meta_slot in
      let ids = chain_ids p new_meta in
      let m = committed_meta p new_meta in
      (do
        write_pages (persist p.freelist ids)
        on_disk (write_all_at next_slot (meta_page_of p new_meta))
        on_disk sync_data
        set_meta m next_slot (chain_head ids))
        p

  -- `Pager::create` on a file that `OpenOptions` has truncated.
  unfoldable pub create : List (Option (List ℕ)) → Result Pager PagerError × Disk
  unfolding new_initial
  create faults =
      let m = new_initial crc32c in
      (do
        write_all_at 0 (to_page m 0)
        write_all_at 1 (to_page m 1)
        sync_data
        λ d. (ok (fresh d m 0 [] 0), d))
        (record { pages = []; faults = faults })

  abbrev opened : Disk → List ℕ → List ℕ → Option (Meta × ℕ) → Option (Result Pager PagerError)
  opened d page0 page1 none = some (err corrupt_meta)
  opened d page0 page1 (some (m, slot)) =
      let active_page = if slot == 0 then page0 else page1 in
      elim (load_freelist d active_page) [
        | none ↦ none
        | some pages ↦ some (ok (fresh d m slot pages (read_freelist_head active_page)))
      ]

  abbrev open_slots :
      Disk
      → Result (List ℕ) PagerError
      → Result (List ℕ) PagerError
      → Option (Result Pager PagerError)
  open_slots d (err e) page1 = some (err e)
  open_slots d (ok page0) (err e) = some (err e)
  open_slots d (ok page0) (ok page1) = opened d page0 page1 (pick_active_meta crc32c page0 page1)

  -- `Pager::open`
  unfoldable pub open_file : Disk → Option (Result Pager PagerError)
  unfolding pick_active_meta
  open_file d = open_slots d (read_page_raw d 0) (read_page_raw d 1)
