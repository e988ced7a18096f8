-- ===== src/Mvcc/Commit.antt =====
-- A commit that fails at any of its calls.
use gemgraph.Base.{
  ℕ, ◌+◌, ◌-◌, ◌%◌, ◌^◌, ◌≤◌, ◌<◌, ◌≡◌, refl, ap, ◌∙◌, List, [], ◌∷◌, Option, none, some, Result,
  ok, err, Method, and_then, All, arith, ◌⊎◌, inl, inr,
}
use gemgraph.Pager.Meta.{Meta, update_checksum}
use gemgraph.Pager.Meta.RoundTrip.{IsWellTyped}
use gemgraph.Pager.FreeList.{chain_pages_needed}
use gemgraph.Pager.Disk.{PagerError, io}
use gemgraph.Pager.Store.{Pager, committed_meta, commit_meta, sync as sync_pager}
use gemgraph.Pager.Store.Commit.{AllowsTorn}
use gemgraph.Pager.Store.Slots.{active_meta, IsRefused}
use gemgraph.Pager.Store.Atomic.{committed_meta-fields, commit_meta_atomic}
use gemgraph.Wal.Record.{WalError}
use gemgraph.Wal.Writer.{WalWriter, append_commit, sync as sync_log}
use gemgraph.Wal.Writer.Appends.{append_record-offset}
use gemgraph.Mvcc.{MvccFailure, of_pager}
use gemgraph.Mvcc.Database.{Database, pager_call, from_store}
use gemgraph.Mvcc.WriteTxn.{WriteTxn, log_call, commit_new_meta, set_committed, commit}

abbrev HasOffset : WalWriter → Type 0
HasOffset w = w.offset < 2 ^ 64

module _ (crc32c : List ℕ → ℕ) where
  -- What is found in a file: the active meta page names the root and the transaction.
  pub record Finds (p : Pager) (root txn_id : ℕ) : Type 0 where
    pub found : Meta
    pub slot : ℕ
    pub is_active : active_meta crc32c p.file ≡ some (found, slot)
    pub has_root : found.root_page_id ≡ root
    pub has_txn : found.txn_id ≡ txn_id

module _ (crc32c : List ℕ → ℕ) (crc32c-lt : (bytes : List ℕ) → crc32c bytes < 2 ^ 32) (t : WriteTxn)
    (old : Meta) where
  abbrev new_txn : ℕ
  new_txn = t.db.current_txn_id + 1

  -- A commit that succeeds, and one that fails.
  abbrev pub Succeeds : Database → Type 0
  Succeeds db =
      (db.current_root ≡ t.catalog_root)
      × (db.current_txn_id ≡ t.db.current_txn_id + 1)
      × Finds crc32c db.pager t.catalog_root (t.db.current_txn_id + 1)

  abbrev pub Fails : Database → Type 0
  Fails db =
      (db.current_root ≡ t.db.current_root)
      × (db.current_txn_id ≡ t.db.current_txn_id)
      × (Finds crc32c db.pager t.db.current_root t.db.current_txn_id
          ⊎ Finds crc32c db.pager t.catalog_root (t.db.current_txn_id + 1))

  abbrev pub Outcome : Result (Unit {0}) MvccFailure × Database → Type 0
  Outcome (ok u, db) = Succeeds db
  Outcome (err e, db) = Fails db

  -- The database before the meta page is written.
  record Before (db : Database) : Type 0 where
    pages : db.pager.file.pages ≡ t.db.pager.file.pages
    meta : db.pager.meta ≡ t.db.pager.meta
    slot : db.pager.meta_slot ≡ t.db.pager.meta_slot
    freelist : db.pager.freelist ≡ t.db.pager.freelist
    allowed : All (AllowsTorn (IsRefused crc32c)) db.pager.file.faults
    root : db.current_root ≡ t.db.current_root
    txn : db.current_txn_id ≡ t.db.current_txn_id
    offset : db.wal.offset < 2 ^ 64

  module _ (is_active : active_meta crc32c t.db.pager.file ≡ some (old, t.db.pager.meta_slot))
      (old_root : old.root_page_id ≡ t.db.current_root)
      (old_txn : old.txn_id ≡ t.db.current_txn_id) where
    still_active :
        (db : Database)
        → Before db
        → active_meta crc32c db.pager.file ≡ some (old, db.pager.meta_slot)
    unfolding active_meta
    still_active db b = rw (b.pages, b.slot) is_active

    Before-Fails : (db : Database) → Before db → Fails db
    Before-Fails db b = (
      b.root,
      b.txn,
      inl (record {
        found = old;
        slot = db.pager.meta_slot;
        is_active = still_active db b;
        has_root = old_root;
        has_txn = old_txn;
      }),
    )

    step :
        {A : Type 0} (r : Result A MvccFailure × Database)
        (f : A → Method Database MvccFailure (Unit {0}))
        → Before r.1
        → ((a : A) (db : Database) → Before db → Outcome (f a db))
        → Outcome (and_then r f)
    step (ok a, db) f b k = k a db b
    step (err e, db) f b k = Before-Fails db b

    module _ (wt : IsWellTyped t.db.pager.meta) (root_small : t.catalog_root < 2 ^ 32)
        (txn_small : t.db.current_txn_id + 1 < 2 ^ 64) (two : 2 ≤ t.db.pager.meta.next_page_id)
        (room : t.db.pager.meta.next_page_id + chain_pages_needed t.db.pager.freelist
          ≤ 2 ^ 32) where
      module _ (new_txn_id wal_offset : ℕ) (db : Database)
          (e : new_txn_id ≡ t.db.current_txn_id + 1) (wal_small : wal_offset < 2 ^ 64)
          (b : Before db) where
        abbrev new_meta : Meta
        new_meta = record db.pager.meta {
          root_page_id = t.catalog_root;
          txn_id = new_txn_id;
          wal_offset = wal_offset;
        }

        new_meta-IsWellTyped : IsWellTyped (record new_meta { checksum = 0 })
        new_meta-IsWellTyped = record {
          magic = rw (b.meta) wt.magic;
          version = rw (b.meta) wt.version;
          root = root_small;
          next_page = rw (b.meta) wt.next_page;
          txn = omega arith;
          wal = wal_small;
          sum = omega arith;
        }

        abbrev FindsNew : Pager → Type 0
        FindsNew q =
            active_meta crc32c q.file
            ≡ some (committed_meta crc32c db.pager new_meta, 1 - db.pager.meta_slot)

        finds_new :
            (q : Pager) → FindsNew q → Finds crc32c q t.catalog_root (t.db.current_txn_id + 1)
        unfolding update_checksum
        finds_new q f =
            let fields =
              committed_meta-fields crc32c crc32c-lt db.pager new_meta new_meta-IsWellTyped in
            record {
              found = committed_meta crc32c db.pager new_meta;
              slot = 1 - db.pager.meta_slot;
              is_active = f;
              has_root = ap (λ (m : Meta). m.root_page_id) fields;
              has_txn = ap (λ (m : Meta). m.txn_id) fields ∙ e;
            }

        by_atom :
            (x : Result (Unit {0}) PagerError × Pager)
            → ((x.0 ≡ ok tt) × FindsNew x.1)
              ⊎ ((x.0 ≡ err io)
                  × ((active_meta crc32c x.1.file ≡ some (old, db.pager.meta_slot)) ⊎ FindsNew x.1))
            → Outcome (
                and_then
                  (of_pager x.0, record db { pager = x.1 })
                  (λ _. set_committed crc32c t.catalog_root new_txn_id))
        by_atom (ok u, q) (inl (r, f)) = (refl, e, finds_new q f)
        by_atom (ok u, q) (inr (r, f)) = cc r
        by_atom (err x, q) (inl (r, f)) = cc r
        by_atom (err x, q) (inr (r, inl f)) = (
          b.root,
          b.txn,
          inl (record {
            found = old;
            slot = db.pager.meta_slot;
            is_active = f;
            has_root = old_root;
            has_txn = old_txn;
          }),
        )
        by_atom (err x, q) (inr (r, inr f)) = (b.root, b.txn, inr (finds_new q f))

        -- The last two calls.
        commit_new_meta-Outcome : Outcome (
            and_then
              (pager_call (commit_new_meta crc32c t.catalog_root new_txn_id wal_offset) db)
              (λ _. set_committed crc32c t.catalog_root new_txn_id))
        commit_new_meta-Outcome = by_atom (commit_meta crc32c new_meta db.pager) (
            commit_meta_atomic crc32c crc32c-lt db.pager new_meta new_meta-IsWellTyped old
              (still_active db b) b.allowed (omega (arith, old_txn, e)) (rw (b.meta) two)
              (rw (b.meta, b.freelist) room))

      log_call-Before :
          {A : Type 0} (m : Method WalWriter WalError A) (db : Database)
          → ((w : WalWriter) → HasOffset w → HasOffset (m w).1)
          → Before db
          → Before (log_call crc32c m db).1
      log_call-Before m db keeps b = record {
        pages = b.pages;
        meta = b.meta;
        slot = b.slot;
        freelist = b.freelist;
        allowed = b.allowed;
        root = b.root;
        txn = b.txn;
        offset = keeps db.wal b.offset;
      }

      sync-Before : (db : Database) → Before db → Before (pager_call (from_store sync_pager) db).1
      unfolding sync_pager
      sync-Before db b = by_faults db.pager.file.faults refl b.allowed
        where
          kept :
              (faults : List (Option (List ℕ)))
              → All (AllowsTorn (IsRefused crc32c)) faults
              → Before (record db {
                pager = record db.pager {
                  file = record { pages = db.pager.file.pages; faults = faults };
                };
              })
          kept faults a = record {
            pages = b.pages;
            meta = b.meta;
            slot = b.slot;
            freelist = b.freelist;
            allowed = a;
            root = b.root;
            txn = b.txn;
            offset = b.offset;
          }

          by_faults :
              (faults : List (Option (List ℕ)))
              → db.pager.file.faults ≡ faults
              → All (AllowsTorn (IsRefused crc32c)) faults
              → Before (pager_call (from_store sync_pager) db).1
          by_faults [] e a = rw (e, sync_pager) (kept [] tt)
          by_faults (none ∷ faults) e a = rw (e, sync_pager) (kept faults a.1)
          by_faults (some torn ∷ faults) e a = rw (e, sync_pager) (kept faults a.1)

      sync_log-HasOffset : (w : WalWriter) → HasOffset w → HasOffset (sync_log w).1
      unfolding sync_log
      sync_log-HasOffset w h = h

      -- A commit of a transaction on a file whose active meta page has the root and the id of the
      -- database, with every failed write of a page leaving one that is not valid there, with room for
      -- the pages of the freelist's chain, and with numbers that fit their fields. Where it succeeds
      -- the database and the file have the transaction's root and the next id; where any of its calls
      -- fails the database keeps the old root and id, and the file has those or the new ones.
      pub commit_atomic :
          All (AllowsTorn (IsRefused crc32c)) t.db.pager.file.faults
          → t.db.wal.offset < 2 ^ 64
          → Outcome (commit crc32c t)
      unfolding commit append_commit
      commit_atomic allowed offset =
          let new_txn_id = (t.db.current_txn_id + 1) % 2 ^ 64 in
          let e : new_txn_id ≡ t.db.current_txn_id + 1 = omega arith in
          let start : Before t.db = record {
            pages = refl;
            meta = refl;
            slot = refl;
            freelist = refl;
            allowed = allowed;
            root = refl;
            txn = refl;
            offset = offset;
          } in
          step (log_call crc32c (append_commit crc32c new_txn_id) t.db) _
            (log_call-Before (append_commit crc32c new_txn_id) t.db
              (append_record-offset crc32c _ _) start)
            λ a1 db1 b1.
              step (log_call crc32c sync_log db1) _
                (log_call-Before sync_log db1 sync_log-HasOffset b1)
                λ a2 db2 b2.
                  step (pager_call (from_store sync_pager) db2) _ (sync-Before db2 b2) λ a3 db3 b3.
                    commit_new_meta-Outcome new_txn_id db2.wal.offset db3 e b2.offset b3
