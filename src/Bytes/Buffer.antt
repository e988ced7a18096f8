-- ===== src/Bytes/Buffer.antt =====
-- Reads and writes of a slice inside a fixed buffer: `buf[off..off + n]` and `copy_from_slice`.
use gemgraph.Base.{
  ℕ, zero, suc, ◌+◌, ◌≤◌, ◌≡◌, refl, ap, ◌∙◌, List, [], ◌∷◌, arith, length, take, drop, take-add,
  drop-add, ◌++◌, sym, length-take, length-drop, All,
}
use gemgraph.Bytes.Le.{IsByte}

-- `[0u8; n]`
unfoldable pub zeros : ℕ → List ℕ
zeros zero = []
zeros (suc n) = 0 ∷ zeros n

-- `buf[off..off + n]`; a range that leaves the buffer panics in the source, and is cut here.
unfoldable pub read_at : ℕ → ℕ → List ℕ → List ℕ
read_at off n buf = take n (drop off buf)

zero_add : (n : ℕ) → 0 + n ≡ n
zero_add n = omega arith

suc-add : (m n : ℕ) → suc m + n ≡ suc (m + n)
suc-add m n = omega arith

overlay : List ℕ → List ℕ → List ℕ
overlay [] buf = buf
overlay (b ∷ bs) [] = []
overlay (b ∷ bs) (x ∷ buf) = b ∷ overlay bs buf

-- `buf[off..off + bs.len()].copy_from_slice(bs)`
unfoldable pub write_at : ℕ → List ℕ → List ℕ → List ℕ
unfolding overlay
write_at zero bs buf = overlay bs buf
write_at (suc off) bs [] = []
write_at (suc off) bs (x ∷ buf) = x ∷ write_at off bs buf

pub length-zeros : (n : ℕ) → length (zeros n) ≡ n
unfolding zeros
length-zeros zero = refl
length-zeros (suc n) = ap suc (length-zeros n)

length-overlay : (bs buf : List ℕ) → length (overlay bs buf) ≡ length buf
unfolding overlay
length-overlay [] buf = refl
length-overlay (b ∷ bs) [] = refl
length-overlay (b ∷ bs) (x ∷ buf) = ap suc (length-overlay bs buf)

pub length-write_at : (off : ℕ) (bs buf : List ℕ) → length (write_at off bs buf) ≡ length buf
unfolding write_at
length-write_at zero bs buf = length-overlay bs buf
length-write_at (suc off) bs [] = refl
length-write_at (suc off) bs (x ∷ buf) = ap suc (length-write_at off bs buf)

take-overlay : (bs buf : List ℕ) → length bs ≤ length buf → take (length bs) (overlay bs buf) ≡ bs
unfolding overlay
take-overlay [] buf h = refl
take-overlay (b ∷ bs) [] h = absurd (omega arith)
take-overlay (b ∷ bs) (x ∷ buf) h = ap (λ (l : List ℕ). b ∷ l) (take-overlay bs buf (omega arith))

drop-overlay : (k : ℕ) (bs buf : List ℕ) → length bs ≤ k → drop k (overlay bs buf) ≡ drop k buf
unfolding overlay
drop-overlay k [] buf h = refl
drop-overlay zero (b ∷ bs) buf h = absurd (omega arith)
drop-overlay (suc k) (b ∷ bs) [] h = refl
drop-overlay (suc k) (b ∷ bs) (x ∷ buf) h = drop-overlay k bs buf (omega arith)

-- A slice reads back as written.
pub read_at-write_at_self :
    (off : ℕ) (bs buf : List ℕ)
    → off + length bs ≤ length buf
    → read_at off (length bs) (write_at off bs buf) ≡ bs
unfolding read_at write_at
read_at-write_at_self zero bs buf h = take-overlay bs buf (omega arith)
read_at-write_at_self (suc off) [] [] h = refl
read_at-write_at_self (suc off) (b ∷ bs) [] h = absurd (omega arith)
read_at-write_at_self (suc off) bs (x ∷ buf) h = read_at-write_at_self off bs buf (omega arith)

-- A slice that lies behind the write is untouched.
pub read_at-write_at_after :
    (o n off : ℕ) (bs buf : List ℕ)
    → off + length bs ≤ o
    → read_at o n (write_at off bs buf) ≡ read_at o n buf
unfolding read_at write_at
read_at-write_at_after o n zero bs buf h = ap (take n) (drop-overlay o bs buf (omega arith))
read_at-write_at_after o n (suc off) bs [] h = refl
read_at-write_at_after zero n (suc off) bs (x ∷ buf) h = absurd (omega arith)
read_at-write_at_after (suc o) n (suc off) bs (x ∷ buf) h =
    read_at-write_at_after o n off bs buf (omega arith)

-- A slice that lies before the write is untouched.
pub read_at-write_at_before :
    (o n off : ℕ) (bs buf : List ℕ)
    → o + n ≤ off
    → read_at o n (write_at off bs buf) ≡ read_at o n buf
unfolding read_at write_at
read_at-write_at_before zero zero off bs buf h = refl
read_at-write_at_before zero (suc n) zero bs buf h = absurd (omega arith)
read_at-write_at_before (suc o) n zero bs buf h = absurd (omega arith)
read_at-write_at_before o n (suc off) bs [] h = refl
read_at-write_at_before zero (suc n) (suc off) bs (x ∷ buf) h =
    ap (λ (l : List ℕ). x ∷ l) (read_at-write_at_before zero n off bs buf (omega arith))
read_at-write_at_before (suc o) n (suc off) bs (x ∷ buf) h =
    read_at-write_at_before o n off bs buf (omega arith)

inside-overlay :
    (i n : ℕ) (bs buf : List ℕ)
    → i + n ≤ length bs
    → length bs ≤ length buf
    → read_at i n (overlay bs buf) ≡ read_at i n bs
unfolding read_at overlay
inside-overlay zero zero bs buf h fits = refl
inside-overlay zero (suc n) [] buf h fits = absurd (omega arith)
inside-overlay zero (suc n) (b ∷ bs) [] h fits = absurd (omega arith)
inside-overlay zero (suc n) (b ∷ bs) (x ∷ buf) h fits =
    ap (λ (l : List ℕ). b ∷ l) (inside-overlay zero n bs buf (omega arith) (omega arith))
inside-overlay (suc i) n [] buf h fits = absurd (omega arith)
inside-overlay (suc i) n (b ∷ bs) [] h fits = absurd (omega arith)
inside-overlay (suc i) n (b ∷ bs) (x ∷ buf) h fits =
    inside-overlay i n bs buf (omega arith) (omega arith)

-- A slice inside the written one.
pub read_at-write_at_inside :
    (off i n : ℕ) (bs buf : List ℕ)
    → i + n ≤ length bs
    → off + length bs ≤ length buf
    → read_at (off + i) n (write_at off bs buf) ≡ read_at i n bs
unfolding read_at write_at
read_at-write_at_inside zero i n bs buf h fits =
    ap (λ k. read_at k n (overlay bs buf)) (zero_add i) ∙ inside-overlay i n bs buf h (omega arith)
read_at-write_at_inside (suc off) zero zero [] [] h fits = refl
read_at-write_at_inside (suc off) i n bs [] h fits = absurd (omega arith)
read_at-write_at_inside (suc off) i n bs (x ∷ buf) h fits =
    ap (λ k. read_at k n (x ∷ write_at off bs buf)) (suc-add off i)
    ∙ read_at-write_at_inside off i n bs buf h (omega arith)

-- A slice is its first part and the rest.
pub read_at-add :
    (off m n : ℕ) (buf : List ℕ)
    → read_at off (m + n) buf ≡ read_at off m buf ++ read_at (off + m) n buf
unfolding read_at
read_at-add off m n buf =
    take-add m n (drop off buf)
    ∙ ap (λ (l : List ℕ). take m (drop off buf) ++ take n l) (sym (drop-add off m buf))

pub length-read_at :
    (off n : ℕ) (buf : List ℕ) → off + n ≤ length buf → length (read_at off n buf) ≡ n
unfolding read_at
length-read_at off n buf h = omega (arith, length-take n (drop off buf), length-drop off buf)

pub zeros-IsByte : (n : ℕ) → All IsByte (zeros n)
unfolding zeros
zeros-IsByte zero = tt
zeros-IsByte (suc n) = (omega arith, zeros-IsByte n)
