-- ===== src/Common/Numbers.antt =====
-- Signed integers and `strconv.Atoi`.
use Prim.Native.Nat.{ℕ, zero, suc, ◌+◌, ◌-◌, ◌*◌, ◌^◌, ◌≤◌}
use mathlib.Core.Path.{◌≡◌, refl}
use mathlib.Core.Bool.{◌&&◌}
use mathlib.Core.Option.{Option, none, some}
use mathlib.Core.List.{[], ◌∷◌}
use native.Mathlib.Omega.{arith}
use egress_router.Common.Tests.{◌==◌, nat_eq, if◌then◌else◌, leb}
use egress_router.Common.Bytes.{Text, lit}

-- `negsuc n` is -(n + 1).
pub data ℤ : Type 0 where
  pos : ℕ → ℤ
  negsuc : ℕ → ℤ

-- The number that decimal digits spell, above what stands before them.
unfoldable pub digits_value : ℕ → Text → Option ℕ
digits_value acc [] = some acc
digits_value acc (c ∷ s) =
    let rest = digits_value (acc * 10 + (c - b'0')) s in
    if leb b'0' c && leb c b'9' then rest else none

abbrev unsigned : Text → Option ℕ
unsigned [] = none
unsigned (c ∷ s) = digits_value 0 (c ∷ s)

-- An `int` has 64 bits.
abbrev positive : Option ℕ → Option ℤ
positive none = none
positive (some n) = if leb n (2 ^ 63 - 1) then some (pos n) else none

abbrev negative : Option ℕ → Option ℤ
negative none = none
negative (some zero) = some (pos 0)
negative (some (suc n)) = if leb (suc n) (2 ^ 63) then some (negsuc n) else none

unfoldable pub atoi : Text → Option ℤ
unfolding digits_value
atoi [] = none
atoi (c ∷ s) =
    if c == b'-'
    then negative (unsigned s)
    else if c == b'+'
    then positive (unsigned s)
    else positive (unsigned (c ∷ s))

-- The numbers from `lo` to `hi` pass, as in `err != nil || n < lo || n > hi`.
abbrev pub within : ℕ → ℕ → Option ℤ → Option ℕ
within lo hi (some (pos n)) = if leb lo n && leb n hi then some n else none
within lo hi _ = none

pub within_bounds :
    (lo hi : ℕ) (z : Option ℤ) {n : ℕ} → within lo hi z ≡ some n → (lo ≤ n) × (n ≤ hi)
within_bounds lo hi none h = ground arith
within_bounds lo hi (some (pos n)) h = ground arith
within_bounds lo hi (some (negsuc n)) h = ground arith

atoi_tests :
    (atoi (lit "8443") ≡ some (pos 8443))
    × (atoi (lit "-1") ≡ some (negsuc 0))
    × (atoi (lit "+7") ≡ some (pos 7))
    × (atoi (lit "9223372036854775808") ≡ none)
    × (atoi (lit "-") ≡ none)
    × (atoi (lit "8x") ≡ none)
unfolding atoi lit
atoi_tests = (refl, refl, refl, refl, refl, refl)
