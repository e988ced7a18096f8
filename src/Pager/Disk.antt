-- ===== src/Pager/Disk.antt =====
-- The data file as the pager sees it. Every access of the pager is to one whole page at a multiple
-- of the page size, so the file is a list of pages. The environment says which writes fail:
-- `faults` is consumed by one entry for each call, `none` for a call that succeeds, and `some page`
-- for one that reports an error and leaves `page`, whatever it is, where the write was to go. When
-- the list is used up every call succeeds.
use gemgraph.Base.{
  ℕ, zero, suc, ◌≡◌, ◌≢◌, refl, ap, List, [], ◌∷◌, Option, none, some, get_elem?, Result, ok, err,
}
use gemgraph.Bytes.Buffer.{zeros}
use gemgraph.Pager.Page.{page_size}

pub data PagerError : Type 0 where
  io corrupt_meta checksum_mismatch : PagerError
  invalid_page_id : ℕ → PagerError

pub record Disk : Type 0 where
  pub pages : List (List ℕ)
  pub faults : List (Option (List ℕ))

-- A page written past the end of the file: what lies between reads as zeros.
unfoldable pub put : ℕ → List ℕ → List (List ℕ) → List (List ℕ)
put zero page [] = page ∷ []
put zero page (p ∷ ps) = page ∷ ps
put (suc id) page [] = zeros page_size ∷ put id page []
put (suc id) page (p ∷ ps) = p ∷ put id page ps

abbrev write_outcome :
    List (Option (List ℕ)) → List (List ℕ) → ℕ → List ℕ → Result (Unit {0}) PagerError × Disk
write_outcome [] pages id page = (ok tt, record { pages = put id page pages; faults = [] })
write_outcome (none ∷ faults) pages id page =
    (ok tt, record { pages = put id page pages; faults = faults })
write_outcome (some torn ∷ faults) pages id page =
    (err io, record { pages = put id torn pages; faults = faults })

-- `FileExt::write_all_at` at the offset of a page.
abbrev pub write_all_at : ℕ → List ℕ → Disk → Result (Unit {0}) PagerError × Disk
write_all_at id page d = write_outcome d.faults d.pages id page

abbrev sync_outcome : List (Option (List ℕ)) → List (List ℕ) → Result (Unit {0}) PagerError × Disk
sync_outcome [] pages = (ok tt, record { pages = pages; faults = [] })
sync_outcome (none ∷ faults) pages = (ok tt, record { pages = pages; faults = faults })
sync_outcome (some torn ∷ faults) pages = (err io, record { pages = pages; faults = faults })

-- `File::sync_data`, which may report an error and never changes what is read.
abbrev pub sync_data : Disk → Result (Unit {0}) PagerError × Disk
sync_data d = sync_outcome d.faults d.pages

abbrev pub found : Option (List ℕ) → Result (List ℕ) PagerError
found none = err io
found (some page) = ok page

-- `read_page_raw`: the read of a page behind the end of the file is an error.
unfoldable pub read_page_raw : Disk → ℕ → Result (List ℕ) PagerError
read_page_raw d id = found (get_elem? d.pages id)

pub get_elem?-put_self :
    (id : ℕ) (page : List ℕ) (pages : List (List ℕ)) → get_elem? (put id page pages) id ≡ some page
unfolding put
get_elem?-put_self zero page [] = refl
get_elem?-put_self zero page (p ∷ ps) = refl
get_elem?-put_self (suc id) page [] = get_elem?-put_self id page []
get_elem?-put_self (suc id) page (p ∷ ps) = get_elem?-put_self id page ps

-- A page that is there stays as it is under a write of another.
pub get_elem?-put_ne :
    (id j : ℕ) (page other : List ℕ) (pages : List (List ℕ))
    → id ≢ j
    → get_elem? pages j ≡ some other
    → get_elem? (put id page pages) j ≡ some other
unfolding put
get_elem?-put_ne id j page other [] ne there = cc
get_elem?-put_ne zero zero page other (p ∷ ps) ne there = absurd (ne refl)
get_elem?-put_ne zero (suc j) page other (p ∷ ps) ne there = there
get_elem?-put_ne (suc id) zero page other (p ∷ ps) ne there = there
get_elem?-put_ne (suc id) (suc j) page other (p ∷ ps) ne there =
    get_elem?-put_ne id j page other ps (λ e. ne (ap suc e)) there
