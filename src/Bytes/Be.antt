-- ===== src/Bytes/Be.antt =====
-- `to_be_bytes` and `from_be_bytes` of Rust's unsigned integers: the byte order of the graph's keys.
use native.Mathlib.Nat.{pow-suc, div-add-mod', mod-lt}
use Prim.Native.Nat.Ordering.{lt, eq, gt}
use gemgraph.Base.{
  ℕ, zero, suc, ◌+◌, ◌*◌, ◌/◌, ◌%◌, ◌^◌, ◌≤◌, ◌<◌, ◌≡◌, refl, ap, List, [], ◌∷◌, arith, length,
  compare,
}
use gemgraph.Bytes.Order.{compare_bytes}

unfoldable pub to_be_bytes : ℕ → ℕ → List ℕ
to_be_bytes zero v = []
to_be_bytes (suc w) v = (v / 256 ^ w % 256) ∷ to_be_bytes w (v % 256 ^ w)

unfoldable pub from_be_bytes : List ℕ → ℕ
from_be_bytes [] = 0
from_be_bytes (b ∷ bs) = b * 256 ^ length bs + from_be_bytes bs

pub length-to_be_bytes : (w v : ℕ) → length (to_be_bytes w v) ≡ w
unfolding to_be_bytes
length-to_be_bytes zero v = refl
length-to_be_bytes (suc w) v = ap suc (length-to_be_bytes w (v % 256 ^ w))

pub pow_pos : (w : ℕ) → 0 < 256 ^ w
pow_pos zero = omega arith
pow_pos (suc w) = omega (arith, pow_pos w, pow-suc 256 w)

div_lt : (v w : ℕ) → v < 256 ^ suc w → v / 256 ^ w < 256
div_lt v w h = grind (arith, pow-suc 256 w, pow_pos w)

pub from_be_bytes-to_be_bytes : (w v : ℕ) → v < 256 ^ w → from_be_bytes (to_be_bytes w v) ≡ v
unfolding to_be_bytes from_be_bytes
from_be_bytes-to_be_bytes zero v h = omega arith
from_be_bytes-to_be_bytes (suc w) v h = ground (
  arith,
  length-to_be_bytes w (v % 256 ^ w),
  from_be_bytes-to_be_bytes w (v % 256 ^ w) (mod-lt v (pow_pos w)),
  div_lt v w h,
  div-add-mod' v (256 ^ w),
)

quotient_lt : (p q r : ℕ) → q < r → q * p + p ≤ r * p
quotient_lt p q r h = grind arith

-- The order of two numbers is that of their quotients, and then that of their remainders.
compare-div-mod :
    (p a b : ℕ)
    → 0 < p
    → compare a b
      ≡ elim (compare (a / p) (b / p)) [ lt ↦ lt | eq ↦ compare (a % p) (b % p) | gt ↦ gt ]
compare-div-mod p a b h = grind (
  arith,
  div-add-mod' a p,
  div-add-mod' b p,
  mod-lt a h,
  mod-lt b h,
  quotient_lt p (a / p) (b / p),
  quotient_lt p (b / p) (a / p),
)

-- Keys in big-endian order sort as the numbers do.
pub compare_bytes-to_be_bytes :
    (w a b : ℕ)
    → a < 256 ^ w
    → b < 256 ^ w
    → compare_bytes (to_be_bytes w a) (to_be_bytes w b) ≡ compare a b
unfolding to_be_bytes compare_bytes
compare_bytes-to_be_bytes zero a b h k = ground arith
compare_bytes-to_be_bytes (suc w) a b h k = ground (
  arith,
  compare_bytes-to_be_bytes w (a % 256 ^ w) (b % 256 ^ w) (mod-lt a (pow_pos w))
      (mod-lt b (pow_pos w)),
  div_lt a w h,
  div_lt b w k,
  compare-div-mod (256 ^ w) a b (pow_pos w),
)
