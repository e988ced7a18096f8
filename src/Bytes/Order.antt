-- ===== src/Bytes/Order.antt =====
-- The order of byte slices, `Ord for [u8]`: lexicographic, a proper prefix first.
use gemgraph.Base.{
  ◌≡◌, ◌↔◌, Bool, true, false, List, [], ◌∷◌, arith, ℕ, compare, Ordering, length, refl, ◌++◌,
}
use Prim.Native.Nat.Ordering.{lt, eq, gt}

unfoldable pub compare_bytes : List ℕ → List ℕ → Ordering
compare_bytes [] [] = eq
compare_bytes [] (y ∷ ys) = lt
compare_bytes (x ∷ xs) [] = gt
compare_bytes (x ∷ xs) (y ∷ ys) =
    let rest = compare_bytes xs ys in elim (compare x y) [ lt ↦ lt | eq ↦ rest | gt ↦ gt ]

infix 50 ◌≺◌
abbrev pub ◌≺◌ : List ℕ → List ℕ → Type 0
a ≺ b = compare_bytes a b ≡ lt

pub compare_bytes_refl : (a : List ℕ) → compare_bytes a a ≡ eq
unfolding compare_bytes
compare_bytes_refl [] = ground arith
compare_bytes_refl (x ∷ xs) = ground (arith, compare_bytes_refl xs)

pub eq_of_compare_bytes : (a b : List ℕ) → compare_bytes a b ≡ eq → a ≡ b
unfolding compare_bytes
eq_of_compare_bytes [] [] h = ground arith
eq_of_compare_bytes [] (y ∷ ys) h = ground arith
eq_of_compare_bytes (x ∷ xs) [] h = ground arith
eq_of_compare_bytes (x ∷ xs) (y ∷ ys) h = ground (arith, eq_of_compare_bytes xs ys)

pub lt_of_gt : (a b : List ℕ) → compare_bytes a b ≡ gt → b ≺ a
unfolding compare_bytes
lt_of_gt [] [] h = ground arith
lt_of_gt [] (y ∷ ys) h = ground arith
lt_of_gt (x ∷ xs) [] h = ground arith
lt_of_gt (x ∷ xs) (y ∷ ys) h = ground (arith, lt_of_gt xs ys)

pub gt_of_lt : (a b : List ℕ) → a ≺ b → compare_bytes b a ≡ gt
unfolding compare_bytes
gt_of_lt [] [] h = ground arith
gt_of_lt [] (y ∷ ys) h = ground arith
gt_of_lt (x ∷ xs) [] h = ground arith
gt_of_lt (x ∷ xs) (y ∷ ys) h = ground (arith, gt_of_lt xs ys)

pub lt_trans : (a b c : List ℕ) → a ≺ b → b ≺ c → a ≺ c
unfolding compare_bytes
lt_trans [] [] c h k = ground arith
lt_trans [] (y ∷ ys) [] h k = ground arith
lt_trans [] (y ∷ ys) (z ∷ zs) h k = ground arith
lt_trans (x ∷ xs) [] c h k = ground arith
lt_trans (x ∷ xs) (y ∷ ys) [] h k = ground arith
lt_trans (x ∷ xs) (y ∷ ys) (z ∷ zs) h k = ground (arith, lt_trans xs ys zs)

-- `a <= b`
abbrev pub le_bytes : List ℕ → List ℕ → Bool
le_bytes a b = elim (compare_bytes a b) [ gt ↦ false | _ ↦ true ]

-- `a < b`
abbrev pub lt_bytes : List ℕ → List ℕ → Bool
lt_bytes a b = elim (compare_bytes a b) [ lt ↦ true | _ ↦ false ]

-- `a == b`
abbrev pub eq_bytes : List ℕ → List ℕ → Bool
eq_bytes a b = elim (compare_bytes a b) [ eq ↦ true | _ ↦ false ]

pub eq_bytes_iff : (a b : List ℕ) → (eq_bytes a b ≡ true) ↔ (a ≡ b)
eq_bytes_iff a b =
    (λ h. eq_of_compare_bytes a b (ground arith), λ e. ground (arith, compare_bytes_refl a))

-- Where the first parts are as long as each other they decide first.
abbrev pub then_compare : Ordering → Ordering → Ordering
then_compare lt o = lt
then_compare eq o = o
then_compare gt o = gt

pub compare_bytes-append :
    (a b c d : List ℕ)
    → length a ≡ length b
    → compare_bytes (a ++ c) (b ++ d) ≡ then_compare (compare_bytes a b) (compare_bytes c d)
unfolding compare_bytes
compare_bytes-append [] [] c d h = refl
compare_bytes-append [] (y ∷ ys) c d h = absurd (omega arith)
compare_bytes-append (x ∷ xs) [] c d h = absurd (omega arith)
compare_bytes-append (x ∷ xs) (y ∷ ys) c d h =
    ground (arith, compare_bytes-append xs ys c d (omega arith))
