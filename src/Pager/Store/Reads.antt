-- ===== src/Pager/Store/Reads.antt =====
-- Reads after writes through the cache.
use gemgraph.Base.{
  arith, ℕ, ◌≤◌, ◌≡◌, ◌≢◌, sym, ap, ◌∙◌, refl, List, [], ◌∷◌, ◌++◌, Option, none, some, get_elem?,
  ok,
}
use gemgraph.Base.Assoc.{lookup, lookup-without}
use gemgraph.Pager.FreeList.{pop}
use gemgraph.Pager.Disk.{found, read_page_raw, get_elem?-put_self, get_elem?-put_ne}
use gemgraph.Pager.Store.{Pager, read_page, write_page, alloc_page, free_page}
use gemgraph.Pager.Store.Coherence.{IsCoherent, read_page_lem, write_page_lem}

-- A page that a successful write has written is what the next read of it returns.
pub read_page-write_page :
    (id : ℕ) (page : List ℕ) (p : Pager)
    → 2 ≤ id
    → IsCoherent p
    → (write_page id page p).0 ≡ ok tt
    → (read_page id (write_page id page p).1).0 ≡ ok page
unfolding read_page_raw
read_page-write_page id page p two h done =
    let (pages, coherent) = write_page_lem id page p h done in
    let (result, file, after) = read_page_lem id (write_page id page p).1 two coherent in
    result ∙ ap found (ap (λ ps. get_elem? ps id) pages ∙ get_elem?-put_self id page p.file.pages)

found-ok : (o : Option (List ℕ)) (page : List ℕ) → found o ≡ ok page → o ≡ some page
found-ok none page e = cc
found-ok (some other) page e = cc

-- A read is not changed by a successful write of another page.
pub read_page-write_page_ne :
    (id other_id : ℕ) (page other : List ℕ) (p : Pager)
    → 2 ≤ other_id
    → id ≢ other_id
    → IsCoherent p
    → (write_page id page p).0 ≡ ok tt
    → (read_page other_id p).0 ≡ ok other
    → (read_page other_id (write_page id page p).1).0 ≡ ok other
unfolding read_page_raw
read_page-write_page_ne id other_id page other p two ne h done before =
    let (pages, coherent) = write_page_lem id page p h done in
    let (result, file, after) = read_page_lem other_id (write_page id page p).1 two coherent in
    let (result0, file0, after0) = read_page_lem other_id p two h in
    let there = found-ok (get_elem? p.file.pages other_id) other (sym result0 ∙ before) in
    result
    ∙ ap found (
        ap (λ ps. get_elem? ps other_id) pages
        ∙ get_elem?-put_ne id other_id page other p.file.pages ne there)

pop-snoc : (xs : List ℕ) (x : ℕ) → pop (xs ++ x ∷ []) ≡ (some x, xs)
unfolding pop
pop-snoc [] x = refl
pop-snoc (y ∷ []) x = refl
pop-snoc (y ∷ z ∷ xs) x = rw (pop-snoc (z ∷ xs) x) refl

-- The page that was freed last is allocated first, it has left the cache, and the pages that were
-- free are those that stay free.
pub alloc_page-free_page :
    (id : ℕ) (p : Pager)
    → ((alloc_page (free_page id p)).0 ≡ id)
      × ((alloc_page (free_page id p)).1.freelist ≡ p.freelist)
      × (lookup id (alloc_page (free_page id p)).1.cache ≡ none)
unfolding alloc_page free_page
alloc_page-free_page id p =
    rw (pop-snoc p.freelist id) (refl, refl, lookup-without id id p.cache ∙ ground arith)
