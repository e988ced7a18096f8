-- ===== src/Pager/FreeList/RoundTrip.antt =====
-- What `restore` reads from the pages that `persist` wrote, for every freelist.
use mathlib.Core.List.{append-nil}
use gemgraph.Bytes.Fields.{head_or_zero}
use gemgraph.Base.{
  ℕ, zero, suc, ◌+◌, ◌*◌, ◌/◌, ◌^◌, ◌≤◌, ◌<◌, ◌≡◌, ◌≢◌, refl, ap, sym, ◌∙◌, List, [], ◌∷◌, ◌++◌,
  some, length, drop, length-append, length-take, length-drop, take-length_le, drop-length_le, All,
  All-take, All-drop, arith, lt→ltb, ltb-eq-false, if◌then◌else◌,
}
use gemgraph.Pager.FreeList.{
  chunks_loop, chunks, persist, restore, chain_pages_needed, chain_head, next_of,
}
use gemgraph.Pager.FreeList.Entries.{IsId, clobbered}
use gemgraph.Pager.FreeList.Walk.{
  stored, stored_all, IsChunk, IsChainId, restore_loop-persist, clobber_last,
}

chunks_loop-IsChunk :
    (fuel : ℕ) (xs : List ℕ) → All IsId xs → All IsChunk (chunks_loop fuel 1021 xs)
unfolding chunks_loop
chunks_loop-IsChunk fuel [] h = tt
chunks_loop-IsChunk zero (x ∷ xs) h = tt
chunks_loop-IsChunk (suc fuel) (x ∷ xs) h = (
  (All-take IsId 1021 (x ∷ xs) h, omega (arith, length-take 1021 (x ∷ xs))),
  chunks_loop-IsChunk fuel (drop 1021 (x ∷ xs)) (All-drop IsId 1021 (x ∷ xs) h),
)

no_chunk : (fuel : ℕ) → chunks_loop fuel 1021 [] ≡ []
unfolding chunks_loop
no_chunk fuel = refl

length-chunks_loop :
    (fuel : ℕ) (xs : List ℕ)
    → length xs ≤ fuel
    → length (chunks_loop fuel 1021 xs) ≡ (length xs + 1020) / 1021
unfolding chunks_loop
length-chunks_loop fuel [] h = omega arith
length-chunks_loop zero (x ∷ xs) h = absurd (omega arith)
length-chunks_loop (suc fuel) (x ∷ xs) h = omega (
  arith,
  length-chunks_loop fuel (drop 1020 xs) (omega (arith, length-drop 1020 xs)),
  length-drop 1020 xs,
)

-- The number of chain pages that the pager allocates is the number of chunks that are written.
pub chain_pages_needed-eq-length :
    (pages : List ℕ) → chain_pages_needed pages ≡ length (chunks 1021 pages)
unfolding chain_pages_needed chunks
chain_pages_needed-eq-length [] = refl
chain_pages_needed-eq-length (x ∷ pages) =
    omega arith ∙ sym (length-chunks_loop (length (x ∷ pages)) (x ∷ pages) (omega arith))

next_of-eq-chain_head :
    (cs : List (List ℕ)) (ids : List ℕ) → length ids ≡ length cs → next_of cs ids ≡ chain_head ids
next_of-eq-chain_head [] [] h = refl
next_of-eq-chain_head [] (id ∷ ids) h = absurd (omega arith)
next_of-eq-chain_head (c ∷ cs) [] h = refl
next_of-eq-chain_head (c ∷ cs) (id ∷ ids) h = refl

-- A freelist of at most one chunk is one chunk.
one_chunk :
    (x : ℕ) (pages : List ℕ) → length pages ≤ 1020 → chunks 1021 (x ∷ pages) ≡ (x ∷ pages) ∷ []
unfolding chunks chunks_loop
one_chunk x pages h =
    rw (take-length_le 1020 pages h, drop-length_le 1020 pages h)
      (ap (λ l. (x ∷ pages) ∷ l) (no_chunk (length pages)))

stored_one :
    (x : ℕ) (pages : List ℕ)
    → length pages ≤ 1020
    → stored_all (chunks 1021 (x ∷ pages)) ≡ stored (x ∷ pages)
unfolding stored_all
stored_one x pages h = ap stored_all (one_chunk x pages h) ∙ append-nil (stored (x ∷ pages))

stored-small : (pages : List ℕ) → length pages ≤ 1020 → stored_all (chunks 1021 pages) ≡ pages
unfolding stored_all chunks
stored-small [] h = refl
stored-small (x ∷ pages) h =
    stored_one x pages (omega arith)
    ∙ ap (λ b. if b then x ∷ pages else clobber_last (x ∷ pages))
        (lt→ltb (length (x ∷ pages)) 1021 (omega arith))

clobber_last-append :
    (front : List ℕ) (id : ℕ) → clobber_last (front ++ id ∷ []) ≡ front ++ clobbered id ∷ []
clobber_last-append [] id = refl
clobber_last-append (x ∷ []) id = refl
clobber_last-append (x ∷ y ∷ xs) id = ap (λ (l : List ℕ). x ∷ l) (clobber_last-append (y ∷ xs) id)

stored-full :
    (pages front : List ℕ) (id : ℕ)
    → pages ≡ front ++ id ∷ []
    → length front ≡ 1020
    → stored_all (chunks 1021 pages) ≡ front ++ clobbered id ∷ []
stored-full [] front id whole full =
    absurd (omega (arith, ap length whole, length-append front (id ∷ [])))
stored-full (x ∷ pages) front id whole full =
    let size : length (x ∷ pages) ≡ 1021 =
      omega (arith, ap length whole, length-append front (id ∷ [])) in
    stored_one x pages (omega arith)
    ∙ ap (λ b. if b then x ∷ pages else clobber_last (x ∷ pages))
        (ltb-eq-false (length (x ∷ pages)) 1021 (omega arith))
    ∙ ap clobber_last whole
    ∙ clobber_last-append front id

last_eq : (front : List ℕ) (a b : ℕ) → front ++ a ∷ [] ≡ front ++ b ∷ [] → a ≡ b
last_eq [] a b e = ap head_or_zero e
last_eq (x ∷ front) a b e = last_eq front a b (ap (drop 1) e)

module _ (pages ids : List ℕ) (read_fn : ℕ → List ℕ) where
  -- Reading the persisted chain back gives the freelist with the last entry of every full chunk
  -- changed: its top byte is 253.
  pub restore-persist :
      All IsId pages
      → All IsChainId ids
      → length ids ≡ chain_pages_needed pages
      → All (λ p. read_fn p.0 ≡ p.1) (persist pages ids)
      → restore (suc (length ids)) (chain_head ids) read_fn ≡ some (stored_all (chunks 1021 pages))
  unfolding restore persist chunks
  restore-persist ids_fit chain_fits enough on_disk =
      let cs = chunks 1021 pages in
      let count : length ids ≡ length cs = enough ∙ chain_pages_needed-eq-length pages in
      ap (λ head. restore (suc (length ids)) head read_fn)
        (sym (next_of-eq-chain_head cs ids count))
      ∙ restore_loop-persist read_fn cs ids [] (suc (length ids))
          (chunks_loop-IsChunk (length pages) pages ids_fit) chain_fits (omega arith) (omega arith)
          on_disk

  -- A freelist of at most 1020 pages reads back as it was.
  pub restore-persist_small :
      length pages ≤ 1020
      → All IsId pages
      → All IsChainId ids
      → length ids ≡ chain_pages_needed pages
      → All (λ p. read_fn p.0 ≡ p.1) (persist pages ids)
      → restore (suc (length ids)) (chain_head ids) read_fn ≡ some pages
  restore-persist_small small ids_fit chain_fits enough on_disk =
      restore-persist ids_fit chain_fits enough on_disk ∙ ap some (stored-small pages small)

  -- One that fills a page does not, unless the id on its top has 253 for its top byte.
  pub restore-persist_full :
      (front : List ℕ) (id : ℕ)
      → pages ≡ front ++ id ∷ []
      → length front ≡ 1020
      → id < 253 * 2 ^ 24
      → All IsId pages
      → All IsChainId ids
      → length ids ≡ chain_pages_needed pages
      → All (λ p. read_fn p.0 ≡ p.1) (persist pages ids)
      → restore (suc (length ids)) (chain_head ids) read_fn ≢ some pages
  restore-persist_full front id whole full id_fits ids_fit chain_fits enough on_disk = λ same.
      let read = sym (restore-persist ids_fit chain_fits enough on_disk) ∙ same ∙ ap some whole in
      let changed : front ++ clobbered id ∷ [] ≡ front ++ id ∷ [] =
        cc (read, stored-full pages front id whole full) in
      let top : clobbered id ≡ id = last_eq front (clobbered id) id changed in
      absurd (omega (arith, top))
