-- ===== src/Mvcc/Database.antt =====
-- crates/gemgraph-mvcc/src/database.rs: the pager, the log and the committed state.
-- `crc32c` is the checksum of the crate of that name.
use gemgraph.Base.{
  ℕ, ◌+◌, ◌%◌, ◌^◌, List, [], ◌∷◌, length, Option, none, some, Result, ok, err, Method, and_then,
  ◌>>◌, pure,
}
use gemgraph.Pager.Disk.{Disk, PagerError}
use gemgraph.Pager.Store.{
  Pager, write_page, commit_meta, create as create_pager, open_file, sync as sync_pager,
}
use gemgraph.Wal.Writer.{WalWriter, create as create_log, open_log}
use gemgraph.Wal.Recovery.{RecoveryAction, replay_page, recover}
use gemgraph.Mvcc.{MvccFailure, out_of_fuel, PagerCall, of_pager, of_wal}

-- `db_path` and `wal_path` are never read.
pub record Database : Type 0 where
  pub pager : Pager
  pub wal : WalWriter
  pub current_root : ℕ
  pub current_txn_id : ℕ

abbrev pub pager_call : {A : Type 0} → Method Pager MvccFailure A → Method Database MvccFailure A
pager_call m db = let (r, p) = m db.pager in (r, record db { pager = p })

-- A `Database` on a pager and a log.
abbrev handle : Pager → WalWriter → Database
handle p w = record {
  pager = p;
  wal = w;
  current_root = p.meta.root_page_id;
  current_txn_id = p.meta.txn_id;
}

abbrev pub from_store : {A : Type 0} → Method Pager PagerError A → PagerCall A
from_store m p = let (r, p') = m p in (of_pager r, p')

-- The pages of the actions, up to the first that cannot be written.
unfoldable pub replay : List RecoveryAction → PagerCall (Unit {0})
replay [] p = (ok tt, p)
replay (replay_page page_id bytes ∷ actions) p =
    and_then (from_store (write_page page_id bytes) p) (λ _. replay actions)

module _ (crc32c : List ℕ → ℕ) where
  -- What recovery does to the meta page when it has replayed pages.
  abbrev commit_recovered : ℕ → PagerCall (Unit {0})
  commit_recovered new_wal_offset p =
      let new_meta = record p.meta {
        wal_offset = new_wal_offset;
        txn_id = (p.meta.txn_id + 1) % 2 ^ 64;
      } in
      (from_store (commit_meta crc32c new_meta) >> from_store sync_pager) p

  abbrev after_replay : List RecoveryAction → ℕ → PagerCall (Unit {0})
  after_replay [] new_wal_offset = pure tt
  after_replay (a ∷ actions) new_wal_offset = commit_recovered new_wal_offset

  -- A log of no file is `none`. The walk through a log that is too long for the fuel has no result.
  unfoldable pub run_recovery : Option (List ℕ) → PagerCall (Unit {0})
  unfolding replay
  run_recovery none p = (ok tt, p)
  run_recovery (some log) p = elim (recover crc32c log p.meta.wal_offset) [
    | none ↦ (err out_of_fuel, p)
    | some r ↦
        and_then (of_wal r, p) (λ actions. replay actions >> after_replay actions (length log))
  ]

  abbrev log_of : Option (List ℕ) → List (Option ℕ) → WalWriter
  log_of none faults = create_log faults
  log_of (some log) faults = open_log log faults

  abbrev handle_of : WalWriter → Result (Unit {0}) MvccFailure × Pager → Result Database MvccFailure
  handle_of w (ok u, p) = ok (handle p w)
  handle_of w (err e, p) = err e

  -- `Database::create`
  unfoldable pub create : List (Option (List ℕ)) → List (Option ℕ) → Result Database MvccFailure
  create faults log_faults = elim (of_pager (create_pager crc32c faults).0) [
    | ok p ↦ ok (handle p (create_log log_faults))
    | err e ↦ err e
  ]

  -- `Database::open` on a data file and what there is of a log.
  unfoldable pub open_database :
      Disk → Option (List ℕ) → List (Option ℕ) → Result Database MvccFailure
  unfolding run_recovery
  open_database d log log_faults = elim (open_file crc32c d) [
    | none ↦ err out_of_fuel
    | some r ↦ elim (of_pager r) [
      | err e ↦ err e
      | ok p ↦ handle_of (log_of log log_faults) (run_recovery log p)
    ]
  ]
