-- ===== src/Pager/FreeList/Walk.antt =====
-- The walk of `restore` along the chain that `persist` wrote, chunk by chunk.
use mathlib.Core.List.{append_assoc, append-nil}
use native.Mathlib.Decide.{dec_lt}
use mathlib.Core.Path.{subst}
use gemgraph.Base.{
  ℕ, zero, suc, ◌^◌, ◌≤◌, ◌<◌, ◌≡◌, refl, ap, sym, ◌∙◌, List, [], ◌∷◌, ◌++◌, some, length, All,
  if◌then◌else◌, ==_ne, ltb, ltb-eq-false, lt→ltb, All-append_left, arith,
}
use gemgraph.Pager.FreeList.{chain_page, next_of, persist_chunks, read_entries, restore_loop}
use gemgraph.Pager.FreeList.Entries.{
  IsId, clobbered, chain_page-next, chain_page-count, chain_page-entries, chain_page-full,
}

abbrev pub clobber_last : List ℕ → List ℕ
clobber_last [] = []
clobber_last (x ∷ []) = clobbered x ∷ []
clobber_last (x ∷ y ∷ xs) = x ∷ clobber_last (y ∷ xs)

-- A chunk as it reads back: the last entry of a full one is changed.
abbrev pub stored : List ℕ → List ℕ
stored chunk = if ltb (length chunk) 1021 then chunk else clobber_last chunk

unfoldable pub stored_all : List (List ℕ) → List ℕ
stored_all [] = []
stored_all (chunk ∷ rest) = stored chunk ++ stored_all rest

split_last :
    (n : ℕ) (xs : List ℕ)
    → length xs ≡ suc n
    → (front : List ℕ) × (id : ℕ) × (xs ≡ front ++ id ∷ [])
      × (length front ≡ n)
      × (clobber_last xs ≡ front ++ clobbered id ∷ [])
split_last n [] h = absurd (omega arith)
split_last n (x ∷ []) h = ([], x, refl, omega arith, refl)
split_last zero (x ∷ y ∷ xs) h = absurd (omega arith)
split_last (suc n) (x ∷ y ∷ xs) h =
    let (front, id, whole, size, last) = split_last n (y ∷ xs) (omega arith) in
    (x ∷ front, id, ap (λ (l : List ℕ). x ∷ l) whole, omega arith, ap (λ (l : List ℕ). x ∷ l) last)

chain_page-stored :
    (pid next : ℕ) (chunk : List ℕ)
    → All IsId chunk
    → length chunk ≤ 1021
    → read_entries (length chunk) 0 (chain_page pid next chunk) ≡ stored chunk
chain_page-stored pid next chunk ids h = elim (dec_lt (length chunk) 1021) [
  | yes short ↦ rw (lt→ltb (length chunk) 1021 short) (chain_page-entries pid next chunk ids short)
  | no long ↦
      let full : length chunk ≡ 1021 = omega arith in
      let (front, id, whole, size, last) = split_last 1020 chunk full in
      let page = chain_page pid next chunk in
      ap (λ k. read_entries k 0 page) full
      ∙ ap (λ c. read_entries 1021 0 (chain_page pid next c)) whole
      ∙ chain_page-full pid next front id
          (All-append_left IsId front (id ∷ []) (subst (All IsId) whole ids)) size
      ∙ sym last
      ∙ sym (
          ap (λ b. if b then chunk else clobber_last chunk)
            (ltb-eq-false (length chunk) 1021 (omega arith)))
]

abbrev pub IsChunk : List ℕ → Type 0
IsChunk chunk = All IsId chunk × (length chunk ≤ 1021)

abbrev pub IsChainId : ℕ → Type 0
IsChainId id = (0 < id) × (id < 2 ^ 32)

next_of-lt : (cs : List (List ℕ)) (ids : List ℕ) → All IsChainId ids → next_of cs ids < 2 ^ 32
next_of-lt [] ids h = omega arith
next_of-lt (c ∷ cs) [] h = omega arith
next_of-lt (c ∷ cs) (id ∷ ids) h = h.0.1

module _ (read_fn : ℕ → List ℕ) where
  pub restore_loop-persist :
      (cs : List (List ℕ)) (ids acc : List ℕ) (fuel : ℕ)
      → All IsChunk cs
      → All IsChainId ids
      → length cs ≤ length ids
      → length cs < fuel
      → All (λ p. read_fn p.0 ≡ p.1) (persist_chunks cs ids)
      → restore_loop fuel (next_of cs ids) read_fn acc ≡ some (acc ++ stored_all cs)
  unfolding restore_loop persist_chunks stored_all
  restore_loop-persist cs ids acc zero chunk_ok id_ok enough fueled on_disk = absurd (omega arith)
  restore_loop-persist [] ids acc (suc fuel) chunk_ok id_ok enough fueled on_disk = rw append-nil
  restore_loop-persist (c ∷ cs) [] acc (suc fuel) chunk_ok id_ok enough fueled on_disk =
      absurd (omega arith)
  restore_loop-persist (c ∷ cs) (id ∷ ids) acc (suc fuel) chunk_ok id_ok enough fueled on_disk =
      let next = next_of cs ids in
      rw
        (
          ==_ne id 0 (omega arith),
          on_disk.0,
          chain_page-next id next c (next_of-lt cs ids id_ok.1),
          chain_page-count id next c (omega arith),
          chain_page-stored id next c chunk_ok.0.0 chunk_ok.0.1,
          restore_loop-persist cs ids (acc ++ stored c) fuel chunk_ok.1 id_ok.1 (omega arith)
              (omega arith) on_disk.1,
        )
        (ap some (append_assoc acc (stored c) (stored_all cs)))
