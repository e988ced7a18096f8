-- ===== src/Base/Results.antt =====
-- Rust's `Result`, and methods that mutate `self` and may fail: the new state stands beside the
-- result, since what was changed before an early return stays changed.

use mathlib.Core.Path.{◌≡◌}

pub data Result {ℓ κ} (A : Type ℓ) (E : Type κ) : Type (ℓ ⊔ κ) where
  ok : A → Result A E
  err : E → Result A E

abbrev pub Method {ℓ κ μ} : Type ℓ → Type κ → Type μ → Type (ℓ ⊔ κ ⊔ μ)
Method S E A = S → Result A E × S

-- What the `?` operator does with the outcome of a call.
abbrev pub and_then {ℓ κ μ ν} :
    {S : Type ℓ} {E : Type κ} {A : Type μ} {B : Type ν}
    → Result A E × S
    → (A → Method S E B)
    → Result B E × S
and_then (ok a, s) f = f a s
and_then (err e, s) f = (err e, s)

infixl 5 ◌>>=◌ ◌>>◌
abbrev pub ◌>>=◌ {ℓ κ μ ν} :
    {S : Type ℓ} {E : Type κ} {A : Type μ} {B : Type ν}
    → Method S E A
    → (A → Method S E B)
    → Method S E B
◌>>=◌ m f s = and_then (m s) f

abbrev pub ◌>>◌ {ℓ κ μ ν} :
    {S : Type ℓ} {E : Type κ} {A : Type μ} {B : Type ν} → Method S E A → Method S E B → Method S E B
m >> n = m >>= λ _. n

-- A call that cannot fail.
abbrev pub pure {ℓ κ μ} : {S : Type ℓ} {E : Type κ} {A : Type μ} → A → Method S E A
pure a s = (ok a, s)

-- A call that leaves the state alone.
abbrev pub lift {ℓ κ μ} : {S : Type ℓ} {E : Type κ} {A : Type μ} → Result A E → Method S E A
lift r s = (r, s)

-- Behind a call that succeeds, what follows runs on its result and its state.
pub and_then-ok {ℓ κ μ ν} :
    {S : Type ℓ} {E : Type κ} {A : Type μ} {B : Type ν} (r : Result A E × S) (f : A → Method S E B)
    (a : A)
    → r.0 ≡ ok a
    → and_then r f ≡ f a r.1
and_then-ok (ok x, s) f a h = cc
and_then-ok (err e, s) f a h = cc

-- What two calls keep the first and then the second keeps.
pub and_then-keeps {ℓ κ μ ν ξ} :
    {S : Type ℓ} {E : Type κ} {A : Type μ} {B : Type ν} (P : S → Type ξ) (r : Result A E × S)
    (f : A → Method S E B)
    → P r.1
    → ((a : A) (s : S) → P s → P (f a s).1)
    → P (and_then r f).1
and_then-keeps P (ok a, s) f h k = k a s h
and_then-keeps P (err e, s) f h k = h
