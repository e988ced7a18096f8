-- ===== src/Pager/Store/Commit.antt =====
-- `commit_meta` switches from one meta page to the other at once, whatever of its writes fails.
use gemgraph.Base.{
  ℕ, ◌-◌, ◌≤◌, ◌≡◌, refl, List, [], ◌∷◌, Option, none, some, get_elem?, Result, ok, err, Method,
  and_then, ◌>>◌, All, arith, ◌⊎◌, inl, inr,
}
use gemgraph.Base.Assoc.{lookup}
use gemgraph.Pager.Meta.{Meta}
use gemgraph.Pager.FreeList.{persist, chain_head}
use gemgraph.Pager.Disk.{
  PagerError, io, Disk, put, write_all_at, sync_data, get_elem?-put_self, get_elem?-put_ne,
}
use gemgraph.Pager.Store.{
  Pager, on_disk, refresh, write_page, write_pages, chain_ids, committed_meta, meta_page_of,
  set_meta, commit_meta,
}
use gemgraph.Pager.Store.Coherence.{refresh-file}

-- `write_page` does to the file what its write does, and reports what it reports.
write_page-file :
    (id : ℕ) (page : List ℕ) (p : Pager)
    → ((write_page id page p).0 ≡ (write_all_at id page p.file).0)
      × ((write_page id page p).1.file ≡ (write_all_at id page p.file).1)
unfolding write_page
write_page-file id page p = by_result (write_all_at id page p.file)
  where
    by_result :
        (w : Result (Unit {0}) PagerError × Disk)
        → let q = record p { file = w.1 } in
          let done = and_then (w.0, q) (λ _ p'. (ok tt, refresh id page (lookup id p'.cache) p')) in
          (done.0 ≡ w.0) × (done.1.file ≡ w.1)
    by_result (ok u, d) = (refl, refresh-file id page (lookup id p.cache) (record p { file = d }))
    by_result (err e, d) = (refl, refl)

-- A predicate on the page that a failed call leaves.
abbrev pub AllowsTorn : (List ℕ → Type 0) → Option (List ℕ) → Type 0
AllowsTorn Torn none = Unit {0}
AllowsTorn Torn (some torn) = Torn torn

-- The page in the slot `slot`, the page in the other slot, and a predicate on what failures leave.
pub record HasSlots (Torn : List ℕ → Type 0) (slot : ℕ) (active other : List ℕ) (d : Disk)
    : Type 0 where
  pub at_slot : get_elem? d.pages slot ≡ some active
  pub at_other : get_elem? d.pages (1 - slot) ≡ some other
  pub faults : All (AllowsTorn Torn) d.faults

-- An outcome whose error, if any, is that of the file.
abbrev IsIo : Result (Unit {0}) PagerError → Type 0
IsIo r = (r ≡ ok tt) ⊎ (r ≡ err io)

-- The write of the other slot, and what follows it.
abbrev switch : ℕ → List ℕ → Meta → ℕ → Method Pager PagerError (Unit {0})
switch next_slot page m head = do
  on_disk (write_all_at next_slot page)
  on_disk sync_data
  set_meta m next_slot head

module _ (Torn : List ℕ → Type 0) (slot : ℕ) (low : slot ≤ 1) (active other : List ℕ) where
  put-HasSlots :
      (id : ℕ) (page : List ℕ) (pages : List (List ℕ)) (faults : List (Option (List ℕ)))
      → 2 ≤ id
      → All (AllowsTorn Torn) faults
      → get_elem? pages slot ≡ some active
      → get_elem? pages (1 - slot) ≡ some other
      → HasSlots Torn slot active other (record { pages = put id page pages; faults = faults })
  put-HasSlots id page pages faults two allowed at_slot at_other = record {
    at_slot = get_elem?-put_ne id slot page active pages (λ e. omega arith) at_slot;
    at_other = get_elem?-put_ne id (1 - slot) page other pages (λ e. omega arith) at_other;
    faults = allowed;
  }

  -- The slots stay as they are under a write of another page, be it torn.
  write_all_at-HasSlots :
      (id : ℕ) (page : List ℕ) (pages : List (List ℕ)) (faults : List (Option (List ℕ)))
      → 2 ≤ id
      → HasSlots Torn slot active other (record { pages = pages; faults = faults })
      → let w = write_all_at id page (record { pages = pages; faults = faults }) in
        IsIo w.0 × HasSlots Torn slot active other w.1
  write_all_at-HasSlots id page pages [] two h =
      (inl refl, put-HasSlots id page pages [] two tt h.at_slot h.at_other)
  write_all_at-HasSlots id page pages (none ∷ faults) two h =
      (inl refl, put-HasSlots id page pages faults two h.faults.1 h.at_slot h.at_other)
  write_all_at-HasSlots id page pages (some torn ∷ faults) two h =
      (inr refl, put-HasSlots id torn pages faults two h.faults.1 h.at_slot h.at_other)

  write_page-HasSlots :
      (id : ℕ) (page : List ℕ) (p : Pager)
      → 2 ≤ id
      → HasSlots Torn slot active other p.file
      → IsIo (write_page id page p).0
        × HasSlots Torn slot active other (write_page id page p).1.file
  write_page-HasSlots id page p two h =
      let (result, file) = write_page-file id page p in
      rw (result, file) (write_all_at-HasSlots id page p.file.pages p.file.faults two h)

  -- A list of writes, each of a page that is not a meta page.
  write_pages-HasSlots :
      (writes : List (ℕ × List ℕ)) (p : Pager)
      → All (λ w. 2 ≤ w.0) writes
      → HasSlots Torn slot active other p.file
      → IsIo (write_pages writes p).0
        × HasSlots Torn slot active other (write_pages writes p).1.file
  unfolding write_pages
  write_pages-HasSlots [] p behind h = (inl refl, h)
  write_pages-HasSlots ((id, page) ∷ rest) p behind h =
      let (result, after) = write_page-HasSlots id page p behind.0 h in
      by_result (write_page id page p) (λ q h'. write_pages-HasSlots rest q behind.1 h') result
        after
    where
      by_result :
          (w : Result (Unit {0}) PagerError × Pager)
          → ((q : Pager)
              → HasSlots Torn slot active other q.file
              → IsIo (write_pages rest q).0
                × HasSlots Torn slot active other (write_pages rest q).1.file)
          → IsIo w.0
          → HasSlots Torn slot active other w.1.file
          → IsIo (and_then w (λ _. write_pages rest)).0
            × HasSlots Torn slot active other (and_then w (λ _. write_pages rest)).1.file
      by_result (ok u, q) later result after = later q after
      by_result (err e, q) later result after = (result, after)

  put_other-HasSlots :
      (page : List ℕ) (pages : List (List ℕ)) (faults : List (Option (List ℕ)))
      → All (AllowsTorn Torn) faults
      → get_elem? pages slot ≡ some active
      → HasSlots Torn slot active page
          (record { pages = put (1 - slot) page pages; faults = faults })
  put_other-HasSlots page pages faults allowed at_slot = record {
    at_slot = get_elem?-put_ne (1 - slot) slot page active pages (λ e. omega arith) at_slot;
    at_other = get_elem?-put_self (1 - slot) page pages;
    faults = allowed;
  }

  -- What a commit of `page` to the other slot may leave.
  pub data Outcome (page : List ℕ) : Result (Unit {0}) PagerError → Disk → Type 0 where
    switched : (d : Disk) → HasSlots Torn slot active page d → Outcome page (ok tt) d
    unsynced : (d : Disk) → HasSlots Torn slot active page d → Outcome page (err io) d
    unchanged : (d : Disk) → HasSlots Torn slot active other d → Outcome page (err io) d
    broken :
        (d : Disk) (torn : List ℕ)
        → Torn torn
        → HasSlots Torn slot active torn d
        → Outcome page (err io) d

  switch-Outcome :
      (page : List ℕ) (m : Meta) (head : ℕ) (q : Pager)
      → HasSlots Torn slot active other q.file
      → Outcome page (switch (1 - slot) page m head q).0 (switch (1 - slot) page m head q).1.file
  switch-Outcome page m head q h = by_fault q.file.faults refl h.faults
    where
      by_fault :
          (faults : List (Option (List ℕ)))
          → q.file.faults ≡ faults
          → All (AllowsTorn Torn) faults
          → Outcome page
              (switch (1 - slot) page m head q).0
              (switch (1 - slot) page m head q).1.file
      by_fault [] e allowed =
          rw e (switched _ (put_other-HasSlots page q.file.pages [] tt h.at_slot))
      by_fault (some torn ∷ faults) e allowed = rw e (
          broken _ torn allowed.0 (put_other-HasSlots torn q.file.pages faults allowed.1 h.at_slot))
      by_fault (none ∷ []) e allowed =
          rw e (switched _ (put_other-HasSlots page q.file.pages [] tt h.at_slot))
      by_fault (none ∷ none ∷ faults) e allowed =
          rw e (switched _ (put_other-HasSlots page q.file.pages faults allowed.1.1 h.at_slot))
      by_fault (none ∷ some torn ∷ faults) e allowed =
          rw e (unsynced _ (put_other-HasSlots page q.file.pages faults allowed.1.1 h.at_slot))

-- The chain pages first, then the switch.
pub commit_meta-Outcome :
    (Torn : List ℕ → Type 0) (active other : List ℕ) (crc32c : List ℕ → ℕ) (new_meta : Meta)
    (p : Pager)
    → (low : p.meta_slot ≤ 1)
    → All (λ w. 2 ≤ w.0) (persist p.freelist (chain_ids crc32c p new_meta))
    → HasSlots Torn p.meta_slot active other p.file
    → Outcome Torn p.meta_slot low active other
        (meta_page_of crc32c p new_meta)
        (commit_meta crc32c new_meta p).0
        (commit_meta crc32c new_meta p).1.file
unfolding commit_meta
commit_meta-Outcome Torn active other crc32c new_meta p low behind h =
    let writes = persist p.freelist (chain_ids crc32c p new_meta) in
    let (result, after) =
      write_pages-HasSlots Torn p.meta_slot low active other writes p behind h in
    by_result (write_pages writes p) result after
  where
    by_result :
        (w : Result (Unit {0}) PagerError × Pager)
        → IsIo w.0
        → HasSlots Torn p.meta_slot active other w.1.file
        → let page = meta_page_of crc32c p new_meta in
          let m = committed_meta crc32c p new_meta in
          let head = chain_head (chain_ids crc32c p new_meta) in
          let done = and_then w (λ _. switch (1 - p.meta_slot) page m head) in
          Outcome Torn p.meta_slot low active other page done.0 done.1.file
    by_result (ok u, q) result after =
        switch-Outcome Torn p.meta_slot low active other (meta_page_of crc32c p new_meta)
          (committed_meta crc32c p new_meta) (chain_head (chain_ids crc32c p new_meta)) q after
    by_result (err e, q) (inl result) after = cc
    by_result (err e, q) (inr result) after = rw result (unchanged q.file after)
