-- ===== src/Pager/Store/Atomic.antt =====
-- What `open` finds behind a commit that may have failed at any of its writes.
use gemgraph.Base.{
  ℕ, ◌+◌, ◌-◌, ◌%◌, ◌^◌, ◌≤◌, ◌<◌, ◌≡◌, refl, ap, ◌∙◌, List, none, some, Result, ok, err, All,
  arith, ◌⊎◌, inl, inr, if◌then◌else◌,
}
use gemgraph.Pager.Meta.{Meta, to_page, update_checksum, validated}
use gemgraph.Pager.Meta.RoundTrip.{
  IsWellTyped, from_page-to_page, update_checksum-validates, update_checksum-IsWellTyped,
}
use gemgraph.Pager.FreeList.{persist, chunks, entries_per_page, chain_pages_needed, chain_head}
use gemgraph.Pager.Disk.{PagerError, io, Disk}
use gemgraph.Pager.Store.{Pager, alloc_chain, chain_ids, committed_meta, meta_page_of, commit_meta}
use gemgraph.Pager.Store.Commit.{
  HasSlots, AllowsTorn, Outcome, switched, unsynced, unchanged, broken, commit_meta-Outcome,
}
use gemgraph.Pager.Store.Slots.{
  alloc_chain-meta, alloc_chain-behind, persist_chunks-behind, from_page-write_freelist_head,
  active_meta, valid, IsRefused, Active, active_meta-Active, active_meta-newer, active_meta-refused,
  active_meta-same,
}

module _ (crc32c : List ℕ → ℕ) (crc32c-lt : (bytes : List ℕ) → crc32c bytes < 2 ^ 32) (p : Pager)
    (new_meta : Meta) (wt : IsWellTyped (record new_meta { checksum = 0 })) where
  pub committed_meta-fields :
      committed_meta crc32c p new_meta
      ≡ update_checksum crc32c (record new_meta {
        next_page_id = (new_meta.next_page_id + chain_pages_needed p.freelist) % 2 ^ 32;
      })
  committed_meta-fields =
      ap (update_checksum crc32c)
        (alloc_chain-meta (chain_pages_needed p.freelist) new_meta wt.next_page)

  committed_meta-txn : (committed_meta crc32c p new_meta).txn_id ≡ new_meta.txn_id
  unfolding update_checksum
  committed_meta-txn = ap (λ m. m.txn_id) committed_meta-fields

  committed_meta-IsWellTyped : IsWellTyped (committed_meta crc32c p new_meta)
  committed_meta-IsWellTyped = rw committed_meta-fields (
      update_checksum-IsWellTyped crc32c crc32c-lt
        (record new_meta {
          next_page_id = (new_meta.next_page_id + chain_pages_needed p.freelist) % 2 ^ 32;
        })
        (record {
          magic = wt.magic;
          version = wt.version;
          root = wt.root;
          next_page = omega arith;
          txn = wt.txn;
          wal = wt.wal;
          sum = omega arith;
        }))

  -- The meta page that a commit writes is valid.
  pub meta_page_of-valid :
      valid crc32c (meta_page_of crc32c p new_meta) ≡ some (committed_meta crc32c p new_meta)
  meta_page_of-valid =
      let m = committed_meta crc32c p new_meta in
      ap (validated crc32c) (
        from_page-write_freelist_head (chain_head (chain_ids crc32c p new_meta))
          (to_page m (1 - p.meta_slot))
        ∙ from_page-to_page m (1 - p.meta_slot) committed_meta-IsWellTyped)
      ∙ ap (λ b. if b then some m else none)
          (update_checksum-validates crc32c crc32c-lt
            (alloc_chain (chain_pages_needed p.freelist) new_meta).1)

  new_found :
      (old : Meta) (a : Active crc32c (IsRefused crc32c) p.file old p.meta_slot) (d : Disk)
      → old.txn_id < new_meta.txn_id
      → HasSlots (IsRefused crc32c) p.meta_slot a.page (meta_page_of crc32c p new_meta) d
      → active_meta crc32c d ≡ some (committed_meta crc32c p new_meta, 1 - p.meta_slot)
  new_found old a d later h =
      active_meta-newer crc32c (IsRefused crc32c) d p.meta_slot a.page
        (meta_page_of crc32c p new_meta) old (committed_meta crc32c p new_meta) a.low h a.is_valid
        meta_page_of-valid (rw committed_meta-txn later)

  -- A commit over a file whose active meta is `old`, of a meta with a later transaction and room for
  -- the pages of the freelist's chain, with every failed write leaving a page that is not valid:
  -- where it succeeds `open` finds the new meta in the other slot, and where it fails, the old one
  -- in the old slot or the new one in the other.
  pub commit_meta_atomic :
      (old : Meta)
      → active_meta crc32c p.file ≡ some (old, p.meta_slot)
      → All (AllowsTorn (IsRefused crc32c)) p.file.faults
      → old.txn_id < new_meta.txn_id
      → 2 ≤ new_meta.next_page_id
      → new_meta.next_page_id + chain_pages_needed p.freelist ≤ 2 ^ 32
      → let (r, q) = commit_meta crc32c new_meta p in
        let found_new =
          active_meta crc32c q.file ≡ some (committed_meta crc32c p new_meta, 1 - p.meta_slot) in
        let found_old = active_meta crc32c q.file ≡ some (old, p.meta_slot) in
        ((r ≡ ok tt) × found_new) ⊎ ((r ≡ err io) × (found_old ⊎ found_new))
  unfolding persist IsRefused
  commit_meta_atomic old is_active allowed later two room =
      let Torn = IsRefused crc32c in
      let a = active_meta-Active crc32c Torn p.file old p.meta_slot allowed is_active in
      let behind =
        persist_chunks-behind (chunks entries_per_page p.freelist) (chain_ids crc32c p new_meta)
          (alloc_chain-behind (chain_pages_needed p.freelist) new_meta two room) in
      by_outcome a (commit_meta crc32c new_meta p).0 (commit_meta crc32c new_meta p).1.file
        (commit_meta-Outcome Torn a.page a.other crc32c new_meta p a.low behind a.slots)
    where
      by_outcome :
          (a : Active crc32c (IsRefused crc32c) p.file old p.meta_slot)
          (r : Result (Unit {0}) PagerError) (d : Disk)
          → Outcome
              (IsRefused crc32c)
              p.meta_slot
              a.low
              a.page
              a.other
              (meta_page_of crc32c p new_meta)
              r
              d
          → let found_new =
              active_meta crc32c d ≡ some (committed_meta crc32c p new_meta, 1 - p.meta_slot) in
            let found_old = active_meta crc32c d ≡ some (old, p.meta_slot) in
            ((r ≡ ok tt) × found_new) ⊎ ((r ≡ err io) × (found_old ⊎ found_new))
      by_outcome a _ _ (switched d h) = inl (refl, new_found old a d later h)
      by_outcome a _ _ (unsynced d h) = inr (refl, inr (new_found old a d later h))
      by_outcome a _ _ (unchanged d h) = inr (
        refl,
        inl (
            active_meta-same crc32c (IsRefused crc32c) d p.file p.meta_slot a.page a.other a.low h
              a.slots
            ∙ is_active),
      )
      by_outcome a _ _ (broken d torn refused h) = inr (
        refl,
        inl (
            active_meta-refused crc32c (IsRefused crc32c) d p.meta_slot a.page torn old a.low h
              a.is_valid refused),
      )
