-- ===== src/Base/SumCrc.antt =====
-- A checksum for the examples, in the place of crc32c.
use Prim.Native.Nat.{ℕ, ◌+◌, ◌%◌, ◌^◌, ◌<◌}
use mathlib.Core.List.{List, [], ◌∷◌}
use native.Mathlib.Omega.{arith}

unfoldable byte_sum : List ℕ → ℕ
byte_sum [] = 0
byte_sum (b ∷ bs) = b + byte_sum bs

unfoldable pub sum_crc : List ℕ → ℕ
unfolding byte_sum
sum_crc bytes = byte_sum bytes % 2 ^ 32

pub sum_crc-lt : (bytes : List ℕ) → sum_crc bytes < 2 ^ 32
unfolding sum_crc
sum_crc-lt bytes = omega arith
