-- ===== src/Pager/Examples.antt =====
-- Runs of the pager's parts at concrete inputs, with a checksum that stands in for crc32c.
use gemgraph.Base.{
  zero, suc, ℕ, ◌≡◌, ◌≢◌, ◌⊎◌, refl, List, [], ◌∷◌, ◌++◌, Option, none, some, All, ok, err, arith,
}
use gemgraph.Base.Assoc.{lookup}
use gemgraph.Base.SumCrc.{sum_crc, sum_crc-lt}
use gemgraph.Bytes.Buffer.{zeros, length-zeros, read_at, write_at}
use gemgraph.Bytes.Fields.{read_le, write_le, set_byte}
use gemgraph.Bytes.Le.{to_le_bytes, from_le_bytes}
use gemgraph.Bytes.Order.{compare_bytes}
use gemgraph.Pager.Meta.{
  Meta, serialize_fields, new_initial, to_page, from_page, update_checksum, compute_checksum,
  validate_checksum, pick_active_meta,
}
use gemgraph.Pager.Meta.RoundTrip.{IsWellTyped, from_page-to_page}
use gemgraph.Pager.FreeList.{
  persist_chunks, chunks_loop, chain_page, persist, restore, chain_pages_needed,
}
use gemgraph.Pager.FreeList.Entries.{IsId}
use gemgraph.Pager.FreeList.RoundTrip.{restore-persist_small, restore-persist_full}
use gemgraph.Pager.Disk.{io, read_page_raw}
use gemgraph.Pager.Store.{Pager, read_page, write_page, committed_meta, commit_meta}
use gemgraph.Pager.Store.Coherence.{IsCoherent}
use gemgraph.Pager.Store.Reads.{read_page-write_page, read_page-write_page_ne}
use gemgraph.Pager.Store.Slots.{active_meta, IsRefused}
use gemgraph.Pager.Store.Atomic.{commit_meta_atomic}

abbrev blank : List ℕ
blank = zeros 4096

abbrev first_meta : Meta
first_meta = new_initial sum_crc

first_meta-IsWellTyped : IsWellTyped first_meta
unfolding new_initial update_checksum compute_checksum
first_meta-IsWellTyped = record {
  magic = refl;
  version = omega arith;
  root = omega arith;
  next_page = omega arith;
  txn = omega arith;
  wal = omega arith;
  sum = sum_crc-lt _;
}

from_page-to_page_example : from_page (to_page first_meta 1) ≡ some first_meta
from_page-to_page_example = from_page-to_page first_meta 1 first_meta-IsWellTyped

-- A new file with three pages more, two of which have been freed, whose next write fails.
abbrev files : List (Option (List ℕ)) → Pager
files faults = record {
  file = record {
    pages = to_page first_meta 0 ∷ to_page first_meta 1 ∷ blank ∷ blank ∷ blank ∷ [];
    faults = faults;
  };
  meta = record first_meta { next_page_id = 5 };
  meta_slot = 0;
  freelist = 3 ∷ 4 ∷ [];
  freelist_head = 0;
  cache = [];
  lru_order = [];
  cache_capacity = 4096;
}

files-IsCoherent : (faults : List (Option (List ℕ))) → IsCoherent (files faults)
unfolding lookup
files-IsCoherent faults = record { at_page = λ id page two e. absurd (cc e) }

write_done : (write_page 2 (7 ∷ zeros 4095) (files [])).0 ≡ ok tt
unfolding write_page
write_done = refl

read_done : (read_page 3 (files [])).0 ≡ ok blank
unfolding read_page lookup read_page_raw
read_done = refl

read_page-write_page_example :
    (read_page 2 (write_page 2 (7 ∷ zeros 4095) (files [])).1).0 ≡ ok (7 ∷ zeros 4095)
read_page-write_page_example =
    read_page-write_page 2 (7 ∷ zeros 4095) (files []) (omega arith) (files-IsCoherent [])
      write_done

read_page-write_page_ne_example :
    (read_page 3 (write_page 2 (7 ∷ zeros 4095) (files [])).1).0 ≡ ok blank
read_page-write_page_ne_example =
    read_page-write_page_ne 2 3 (7 ∷ zeros 4095) blank (files []) (omega arith) (omega arith)
      (files-IsCoherent []) write_done read_done

abbrev second_meta : Meta
second_meta = record first_meta { next_page_id = 5; txn_id = 1; root_page_id = 2 }

-- The write of the freelist goes well, that of the meta page does not.
abbrev faulty : Pager
faulty = files (none ∷ some blank ∷ [])

active_files : active_meta sum_crc faulty.file ≡ some (first_meta, 0)
unfolding active_meta pick_active_meta from_page to_page new_initial validate_checksum compare_bytes
    read_at write_le write_at set_byte zeros to_le_bytes serialize_fields read_le from_le_bytes
    sum_crc
active_files = refl

commit_meta_atomic_example :
    let (r, q) = commit_meta sum_crc second_meta faulty in
    let found_new =
      active_meta sum_crc q.file ≡ some (committed_meta sum_crc faulty second_meta, 1) in
    let found_old = active_meta sum_crc q.file ≡ some (first_meta, 0) in
    ((r ≡ ok tt) × found_new) ⊎ ((r ≡ err io) × (found_old ⊎ found_new))
unfolding new_initial update_checksum IsRefused from_page chain_pages_needed compare_bytes read_at
    zeros
commit_meta_atomic_example =
    commit_meta_atomic sum_crc sum_crc-lt faulty second_meta
      (record {
        magic = refl;
        version = omega arith;
        root = omega arith;
        next_page = omega arith;
        txn = omega arith;
        wal = omega arith;
        sum = omega arith;
      })
      first_meta active_files (tt, (refl, tt)) (omega arith) (omega arith) (omega arith)

restore-persist_small_example : restore 2 5 (λ id. chain_page 5 0 (9 ∷ 7 ∷ [])) ≡ some (9 ∷ 7 ∷ [])
unfolding chain_pages_needed persist
restore-persist_small_example =
    restore-persist_small (9 ∷ 7 ∷ []) (5 ∷ []) (λ id. chain_page 5 0 (9 ∷ 7 ∷ [])) (omega arith)
      (omega arith) ((omega arith, omega arith), tt) refl (refl, tt)

-- 1021 free pages, in the chain page 5.
abbrev many : List ℕ
many = zeros 1020 ++ 7 ∷ []

many_ids : (n : ℕ) → All IsId (zeros n ++ 7 ∷ [])
unfolding zeros
many_ids zero = (omega arith, tt)
many_ids (suc n) = (omega arith, many_ids n)

restore-persist_full_example : restore 2 5 (λ id. chain_page 5 0 many) ≢ some many
unfolding chain_pages_needed persist persist_chunks chunks_loop zeros
restore-persist_full_example =
    restore-persist_full many (5 ∷ []) (λ id. chain_page 5 0 many) (zeros 1020) 7 refl
      (length-zeros 1020) (omega arith) (many_ids 1020) ((omega arith, omega arith), tt) refl
      (refl, tt)
