-- ===== src/Pager/Store/Slots.antt =====
-- Which meta `open` picks by the pages of the two slots, and the chain pages of a commit.
use gemgraph.Base.{
  ℕ, zero, suc, ◌+◌, ◌-◌, ◌%◌, ◌^◌, ◌≤◌, ◌<◌, ◌≡◌, refl, ap, ◌∙◌, List, [], ◌∷◌, Option, none, some,
  get_elem?, All, arith, inl, if◌then◌else◌, ◌==◌,
}
use gemgraph.Bytes.Fields.{read_at-write_le-Apart, read_le-write_le-Apart}
use gemgraph.Pager.Meta.{Meta, from_page, validated, newer, pick_active_meta}
use gemgraph.Pager.FreeList.{persist_chunks}
use gemgraph.Pager.Disk.{Disk}
use gemgraph.Pager.Store.{alloc_chain, write_freelist_head}
use gemgraph.Pager.Store.Commit.{HasSlots, AllowsTorn}

-- The chain pages are the next ones behind the last page.
pub alloc_chain-meta :
    (n : ℕ) (m : Meta)
    → m.next_page_id < 2 ^ 32
    → (alloc_chain n m).1 ≡ record m { next_page_id = (m.next_page_id + n) % 2 ^ 32 }
unfolding alloc_chain
alloc_chain-meta zero m h = ap (λ k. record m { next_page_id = k }) (omega arith)
alloc_chain-meta (suc n) m h =
    alloc_chain-meta n (record m { next_page_id = (m.next_page_id + 1) % 2 ^ 32 }) (omega arith)
    ∙ ap (λ k. record m { next_page_id = k }) (omega arith)

pub alloc_chain-behind :
    (n : ℕ) (m : Meta)
    → 2 ≤ m.next_page_id
    → m.next_page_id + n ≤ 2 ^ 32
    → All (λ id. 2 ≤ id) (alloc_chain n m).0
unfolding alloc_chain
alloc_chain-behind zero m two h = tt
alloc_chain-behind (suc zero) m two h = (two, tt)
alloc_chain-behind (suc (suc n)) m two h = (
  two,
  alloc_chain-behind (suc n) (record m { next_page_id = (m.next_page_id + 1) % 2 ^ 32 })
      (omega arith) (omega arith),
)

pub persist_chunks-behind :
    (cs : List (List ℕ)) (ids : List ℕ)
    → All (λ id. 2 ≤ id) ids
    → All (λ w. 2 ≤ w.0) (persist_chunks cs ids)
unfolding persist_chunks
persist_chunks-behind [] ids h = tt
persist_chunks-behind (c ∷ cs) [] h = tt
persist_chunks-behind (c ∷ cs) (id ∷ ids) h = (h.0, persist_chunks-behind cs ids h.1)

-- The head of the freelist stands behind all that `from_page` reads.
pub from_page-write_freelist_head :
    (head : ℕ) (page : List ℕ) → from_page (write_freelist_head head page) ≡ from_page page
unfolding from_page write_freelist_head
from_page-write_freelist_head head page =
    rw
      (
        read_at-write_le-Apart 5 4 41 4 head page (inl (omega arith)),
        read_le-write_le-Apart 9 4 41 4 head page (inl (omega arith)),
        read_le-write_le-Apart 13 4 41 4 head page (inl (omega arith)),
        read_le-write_le-Apart 17 4 41 4 head page (inl (omega arith)),
        read_le-write_le-Apart 21 8 41 4 head page (inl (omega arith)),
        read_le-write_le-Apart 29 8 41 4 head page (inl (omega arith)),
        read_le-write_le-Apart 37 4 41 4 head page (inl (omega arith)),
      )
      refl

-- The meta that `open` picks, where the file has both meta pages.
abbrev picked : (List ℕ → ℕ) → Option (List ℕ) → Option (List ℕ) → Option (Meta × ℕ)
picked crc32c (some page0) (some page1) = pick_active_meta crc32c page0 page1
picked crc32c none page1 = none
picked crc32c (some page0) none = none

unfoldable pub active_meta : (List ℕ → ℕ) → Disk → Option (Meta × ℕ)
active_meta crc32c d = picked crc32c (get_elem? d.pages 0) (get_elem? d.pages 1)

module _ (crc32c : List ℕ → ℕ) where
  abbrev pub valid : List ℕ → Option Meta
  valid page = validated crc32c (from_page page)

  -- A page that a failed write leaves in the place of a meta page, and that its checksum gives away.
  unfoldable pub IsRefused : List ℕ → Type 0
  IsRefused torn = valid torn ≡ none

  newer-old :
      (o0 o1 : Option Meta) (m : Meta) (slot : ℕ)
      → newer crc32c o0 o1 ≡ some (m, slot)
      → (slot ≤ 1) × ((if slot == 0 then o0 else o1) ≡ some m)
  newer-old none none m slot e = cc
  newer-old none (some b) m slot e = ground arith
  newer-old (some a) none m slot e = ground arith
  newer-old (some a) (some b) m slot e = ground arith

  -- The pages behind what `open` picks.
  pub record Active (Torn : List ℕ → Type 0) (d : Disk) (m : Meta) (slot : ℕ) : Type 0 where
    pub page : List ℕ
    pub other : List ℕ
    pub low : slot ≤ 1
    pub slots : HasSlots Torn slot page other d
    pub is_valid : valid page ≡ some m

  pub active_meta-Active :
      (Torn : List ℕ → Type 0) (d : Disk) (m : Meta) (slot : ℕ)
      → All (AllowsTorn Torn) d.faults
      → active_meta crc32c d ≡ some (m, slot)
      → Active Torn d m slot
  unfolding active_meta pick_active_meta
  active_meta-Active Torn d m slot allowed e =
      by_pages (get_elem? d.pages 0) (get_elem? d.pages 1) refl refl e
    where
      by_slot :
          (slot : ℕ) (page0 page1 : List ℕ)
          → get_elem? d.pages 0 ≡ some page0
          → get_elem? d.pages 1 ≡ some page1
          → slot ≤ 1
          → (if slot == 0 then valid page0 else valid page1) ≡ some m
          → Active Torn d m slot
      by_slot zero page0 page1 e0 e1 low v = record {
        page = page0;
        other = page1;
        low = low;
        slots = record { at_slot = e0; at_other = e1; faults = allowed };
        is_valid = v;
      }
      by_slot (suc zero) page0 page1 e0 e1 low v = record {
        page = page1;
        other = page0;
        low = low;
        slots = record { at_slot = e1; at_other = e0; faults = allowed };
        is_valid = v;
      }
      by_slot (suc (suc n)) page0 page1 e0 e1 low v = absurd (omega arith)

      by_pages :
          (o0 o1 : Option (List ℕ))
          → get_elem? d.pages 0 ≡ o0
          → get_elem? d.pages 1 ≡ o1
          → picked crc32c o0 o1 ≡ some (m, slot)
          → Active Torn d m slot
      by_pages (some page0) (some page1) e0 e1 e =
          let (low, v) = newer-old (valid page0) (valid page1) m slot e in
          by_slot slot page0 page1 e0 e1 low v
      by_pages none o1 e0 e1 e = cc
      by_pages (some page0) none e0 e1 e = cc

  -- The pages decide what is picked: the newer one.
  pub active_meta-newer :
      (Torn : List ℕ → Type 0) (d : Disk) (slot : ℕ) (page other : List ℕ) (m new : Meta)
      → slot ≤ 1
      → HasSlots Torn slot page other d
      → valid page ≡ some m
      → valid other ≡ some new
      → m.txn_id < new.txn_id
      → active_meta crc32c d ≡ some (new, 1 - slot)
  unfolding active_meta pick_active_meta
  active_meta-newer Torn d zero page other m new low h a b older =
      rw (h.at_slot, h.at_other, a, b) (ground arith)
  active_meta-newer Torn d (suc zero) page other m new low h a b older =
      rw (h.at_slot, h.at_other, a, b) (ground arith)
  active_meta-newer Torn d (suc (suc n)) page other m new low h a b older = absurd (omega arith)

  pub active_meta-refused :
      (Torn : List ℕ → Type 0) (d : Disk) (slot : ℕ) (page other : List ℕ) (m : Meta)
      → slot ≤ 1
      → HasSlots Torn slot page other d
      → valid page ≡ some m
      → valid other ≡ none
      → active_meta crc32c d ≡ some (m, slot)
  unfolding active_meta pick_active_meta
  active_meta-refused Torn d zero page other m low h a b = rw (h.at_slot, h.at_other, a, b) refl
  active_meta-refused Torn d (suc zero) page other m low h a b =
      rw (h.at_slot, h.at_other, a, b) refl
  active_meta-refused Torn d (suc (suc n)) page other m low h a b = absurd (omega arith)

  pub active_meta-same :
      (Torn : List ℕ → Type 0) (d d' : Disk) (slot : ℕ) (page other : List ℕ)
      → slot ≤ 1
      → HasSlots Torn slot page other d
      → HasSlots Torn slot page other d'
      → active_meta crc32c d ≡ active_meta crc32c d'
  unfolding active_meta
  active_meta-same Torn d d' zero page other low h h' =
      rw (h.at_slot, h.at_other, h'.at_slot, h'.at_other) refl
  active_meta-same Torn d d' (suc zero) page other low h h' =
      rw (h.at_slot, h.at_other, h'.at_slot, h'.at_other) refl
  active_meta-same Torn d d' (suc (suc n)) page other low h h' = absurd (omega arith)
