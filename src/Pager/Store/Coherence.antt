-- ===== src/Pager/Store/Coherence.antt =====
-- The cache is invisible: a page that is read is the page in the file.
use native.Mathlib.Decide.{ℕ_discrete}
use gemgraph.Base.{
  ℕ, ◌≤◌, ◌≡◌, refl, ap, sym, List, [], ◌∷◌, Option, none, some, if◌then◌else◌, ◌==◌, get_elem?, ok,
  arith,
}
use gemgraph.Base.Assoc.{lookup, insert, lookup-without, lookup-insert}
use gemgraph.Pager.Disk.{put, found, read_page_raw, get_elem?-put_self, get_elem?-put_ne}
use gemgraph.Pager.Store.{
  Pager, make_room, touch_lru, cache_insert, evict, served, fetched, refresh, read_page, write_page,
}

-- Every cached page, but for the two meta pages and those that `Skip` excuses, is the page in the
-- file.
record IsCoherentExcept (Skip : ℕ → Type 0) (p : Pager) : Type 0 where
  at_page :
      (id : ℕ) (page : List ℕ)
      → 2 ≤ id
      → ¬ Skip id
      → lookup id p.cache ≡ some page
      → get_elem? p.file.pages id ≡ some page

-- Every cached page, but for the two meta pages, is the page in the file.
pub record IsCoherent (p : Pager) : Type 0 where
  pub at_page :
      (id : ℕ) (page : List ℕ)
      → 2 ≤ id
      → lookup id p.cache ≡ some page
      → get_elem? p.file.pages id ≡ some page

touch_lru-IsCoherent : (key : ℕ) (p : Pager) → IsCoherent p → IsCoherent (touch_lru key p)
unfolding touch_lru
touch_lru-IsCoherent key p h = record { at_page = h.at_page }

evict-at :
    (p : Pager) (order : List ℕ) (id : ℕ) (page : List ℕ)
    → lookup id (evict p order).cache ≡ some page
    → (lookup id p.cache ≡ some page) × ((evict p order).file ≡ p.file)
evict-at p [] id page e = (e, refl)
evict-at p (key ∷ rest) id page e = (ground (arith, lookup-without key id p.cache), refl)

-- Making room drops pages and adds none.
make_room-at :
    (p : Pager) (id : ℕ) (page : List ℕ)
    → lookup id (make_room p).cache ≡ some page
    → lookup id p.cache ≡ some page
unfolding make_room
make_room-at p id page e = ground (arith, evict-at p p.lru_order id page)

evict-file : (p : Pager) (order : List ℕ) → (evict p order).file ≡ p.file
evict-file p [] = refl
evict-file p (key ∷ rest) = refl

make_room-file : (p : Pager) → (make_room p).file ≡ p.file
unfolding make_room
make_room-file p = ground (arith, evict-file p p.lru_order)

-- A page that is in the file may be cached, whatever was cached under its key.
insert-IsCoherent :
    (key : ℕ) (page : List ℕ) (p q : Pager)
    → IsCoherentExcept (λ id. key ≡ id) p
    → get_elem? p.file.pages key ≡ some page
    → q.file ≡ p.file
    → ((id : ℕ) (other : List ℕ)
        → lookup id q.cache ≡ some other
        → (if key == id then some page else lookup id p.cache) ≡ some other)
    → IsCoherent q
insert-IsCoherent key page p q h there file from = record {
  at_page = λ id other two e. rw file (elim (ℕ_discrete key id) [
    | yes same ↦ ground (arith, from id other)
    | no differ ↦ h.at_page id other two differ (ground (arith, from id other))
  ]);
}

pub cache_insert-file :
    (key : ℕ) (page : List ℕ) (p : Pager) → (cache_insert key page p).file ≡ p.file
unfolding cache_insert
cache_insert-file key page p = make_room-file p

cache_insert-at :
    (key : ℕ) (page : List ℕ) (p : Pager) (id : ℕ) (other : List ℕ)
    → lookup id (cache_insert key page p).cache ≡ some other
    → (if key == id then some page else lookup id p.cache) ≡ some other
unfolding cache_insert
cache_insert-at key page p id other e =
    ground (arith, lookup-insert key id page (make_room p).cache, make_room-at p id other)

cache_insert-IsCoherent :
    (key : ℕ) (page : List ℕ) (p : Pager)
    → IsCoherentExcept (λ id. key ≡ id) p
    → get_elem? p.file.pages key ≡ some page
    → IsCoherent (cache_insert key page p)
cache_insert-IsCoherent key page p h there =
    insert-IsCoherent key page p (cache_insert key page p) h there (cache_insert-file key page p)
      (λ id other e. cache_insert-at key page p id other e)

weaken : {Skip : ℕ → Type 0} (p : Pager) → IsCoherent p → IsCoherentExcept Skip p
weaken p h = record { at_page = λ id page two keep e. h.at_page id page two e }

-- A read returns the page in the file, or the error of reading behind the end of the file; the file
-- stays as it is and the cache stays coherent.
pub read_page_lem :
    (id : ℕ) (p : Pager)
    → 2 ≤ id
    → IsCoherent p
    → ((read_page id p).0 ≡ read_page_raw p.file id)
      × ((read_page id p).1.file ≡ p.file)
      × IsCoherent (read_page id p).1
unfolding read_page read_page_raw
read_page_lem id p two h = cached (lookup id p.cache) refl
  where
    missed :
        (o : Option (List ℕ))
        → get_elem? p.file.pages id ≡ o
        → ((fetched id (found o) p).0 ≡ found (get_elem? p.file.pages id))
          × ((fetched id (found o) p).1.file ≡ p.file)
          × IsCoherent (fetched id (found o) p).1
    missed none e = (ap found (sym e), refl, h)
    missed (some page) e = (
      ap found (sym e),
      cache_insert-file id page p,
      cache_insert-IsCoherent id page p (weaken p h) e,
    )

    cached :
        (o : Option (List ℕ))
        → lookup id p.cache ≡ o
        → ((served id o p).0 ≡ read_page_raw p.file id)
          × ((served id o p).1.file ≡ p.file)
          × IsCoherent (served id o p).1
    cached (some page) e =
        (ap found (sym (h.at_page id page two e)), refl, touch_lru-IsCoherent id p h)
    cached none e = missed (get_elem? p.file.pages id) refl

refresh-IsCoherent :
    (id : ℕ) (page : List ℕ) (o : Option (List ℕ)) (p : Pager)
    → IsCoherentExcept (λ j. id ≡ j) p
    → get_elem? p.file.pages id ≡ some page
    → ((refresh id page o p).file ≡ p.file) × IsCoherent (refresh id page o p)
unfolding touch_lru
refresh-IsCoherent id page none p h there =
    (cache_insert-file id page p, cache_insert-IsCoherent id page p h there)
refresh-IsCoherent id page (some old) p h there = (
  refl,
  insert-IsCoherent id page p (touch_lru id (record p { cache = insert id page p.cache })) h there
      refl (λ j other e. rw (lookup-insert id j page p.cache) at e),
)

-- The pager behind the write to its file.
abbrev written : ℕ → List ℕ → List (Option (List ℕ)) → Pager → Pager
written id page faults p = record p {
  file = record { pages = put id page p.file.pages; faults = faults };
}

written-IsCoherent :
    (id : ℕ) (page : List ℕ) (faults : List (Option (List ℕ))) (p : Pager)
    → IsCoherent p
    → IsCoherentExcept (λ j. id ≡ j) (written id page faults p)
written-IsCoherent id page faults p h = record {
  at_page = λ j other two differ e.
      get_elem?-put_ne id j page other p.file.pages differ (h.at_page j other two e);
}

-- A write that succeeds has put its page into the file, and the cache stays coherent.
pub write_page_lem :
    (id : ℕ) (page : List ℕ) (p : Pager)
    → IsCoherent p
    → (write_page id page p).0 ≡ ok tt
    → ((write_page id page p).1.file.pages ≡ put id page p.file.pages)
      × IsCoherent (write_page id page p).1
unfolding write_page
write_page_lem id page p h = by_fault p.file.faults refl
  where
    refreshed :
        (faults : List (Option (List ℕ)))
        → let q = refresh id page (lookup id p.cache) (written id page faults p) in
          (q.file.pages ≡ put id page p.file.pages) × IsCoherent q
    refreshed faults =
        let (file, coherent) =
          refresh-IsCoherent id page (lookup id p.cache) (written id page faults p)
            (written-IsCoherent id page faults p h) (get_elem?-put_self id page p.file.pages) in
        (ap (λ d. d.pages) file, coherent)

    by_fault :
        (faults : List (Option (List ℕ)))
        → p.file.faults ≡ faults
        → (write_page id page p).0 ≡ ok tt
        → ((write_page id page p).1.file.pages ≡ put id page p.file.pages)
          × IsCoherent (write_page id page p).1
    by_fault [] e done = rw (e, write_page) (refreshed [])
    by_fault (none ∷ faults) e done = rw (e, write_page) (refreshed faults)
    by_fault (some torn ∷ faults) e done = cc (rw (e, write_page) at done)

pub refresh-file :
    (id : ℕ) (page : List ℕ) (o : Option (List ℕ)) (p : Pager) → (refresh id page o p).file ≡ p.file
unfolding touch_lru
refresh-file id page none p = cache_insert-file id page p
refresh-file id page (some old) p = refl

-- Without faults to come a write succeeds, and so will the next.
pub write_page-ok :
    (id : ℕ) (page : List ℕ) (p : Pager)
    → p.file.faults ≡ []
    → ((write_page id page p).0 ≡ ok tt) × ((write_page id page p).1.file.faults ≡ [])
unfolding write_page
write_page-ok id page p no_faults =
    rw (no_faults, write_page)
      (refl, ap (λ d. d.faults) (refresh-file id page (lookup id p.cache) (written id page [] p)))
