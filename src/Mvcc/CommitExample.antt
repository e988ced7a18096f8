-- ===== src/Mvcc/CommitExample.antt =====
-- A commit whose write of the meta page fails.
use gemgraph.Base.{ℕ, ◌≡◌, refl, List, [], ◌∷◌, none, some, false, arith}
use gemgraph.Base.SumCrc.{sum_crc, sum_crc-lt}
use gemgraph.Bytes.Buffer.{zeros, read_at, write_at}
use gemgraph.Bytes.Fields.{read_le, write_le, set_byte}
use gemgraph.Bytes.Le.{to_le_bytes, from_le_bytes}
use gemgraph.Bytes.Order.{compare_bytes}
use gemgraph.Pager.Meta.{
  Meta, serialize_fields, new_initial, to_page, from_page, update_checksum, compute_checksum,
  validate_checksum, pick_active_meta,
}
use gemgraph.Pager.Meta.RoundTrip.{IsWellTyped}
use gemgraph.Pager.FreeList.{chain_pages_needed}
use gemgraph.Pager.Store.{Pager}
use gemgraph.Pager.Store.Slots.{active_meta, IsRefused}
use gemgraph.Wal.Writer.{create}
use gemgraph.Mvcc.Database.{Database}
use gemgraph.Mvcc.WriteTxn.{WriteTxn, commit}
use gemgraph.Mvcc.Commit.{Outcome, commit_atomic}

abbrev blank : List ℕ
blank = zeros 4096

abbrev first_meta : Meta
first_meta = new_initial sum_crc

-- A new file with three pages more, two of which have been freed.
abbrev faulty : Pager
faulty = record {
  file = record {
    pages = to_page first_meta 0 ∷ to_page first_meta 1 ∷ blank ∷ blank ∷ blank ∷ [];
    faults = none ∷ none ∷ some blank ∷ [];
  };
  meta = record first_meta { next_page_id = 5 };
  meta_slot = 0;
  freelist = 3 ∷ 4 ∷ [];
  freelist_head = 0;
  cache = [];
  lru_order = [];
  cache_capacity = 4096;
}

abbrev db : Database
db = record { pager = faulty; wal = create []; current_root = 0; current_txn_id = 0 }

abbrev txn : WriteTxn
txn = record { db = db; catalog_root = 2; tree_roots = (1, 2) ∷ []; committed = false }

active_files : active_meta sum_crc faulty.file ≡ some (first_meta, 0)
unfolding active_meta pick_active_meta from_page to_page new_initial validate_checksum compare_bytes
    read_at write_le write_at set_byte zeros to_le_bytes serialize_fields read_le from_le_bytes
    sum_crc
active_files = refl

meta-IsWellTyped : IsWellTyped faulty.meta
unfolding new_initial update_checksum compute_checksum
meta-IsWellTyped = record {
  magic = refl;
  version = omega arith;
  root = omega arith;
  next_page = omega arith;
  txn = omega arith;
  wal = omega arith;
  sum = sum_crc-lt _;
}

commit_atomic_example : Outcome sum_crc sum_crc-lt txn first_meta (commit sum_crc txn)
unfolding new_initial update_checksum IsRefused from_page chain_pages_needed compare_bytes read_at
    zeros create
commit_atomic_example =
    commit_atomic sum_crc sum_crc-lt txn first_meta active_files refl refl meta-IsWellTyped
      (omega arith) (omega arith) (omega arith) (omega arith) (tt, (tt, (refl, tt))) (omega arith)
