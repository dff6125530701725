-- ===== src/Common/Decimal.antt =====
-- The decimal print of a number, `%d`, which `strconv.Atoi` reads back.
use Prim.Native.Nat.{ℕ, zero, suc, ◌+◌, ◌-◌, ◌*◌, ◌/◌, ◌%◌, ◌≤◌, ◌<◌}
use mathlib.Core.Path.{◌≡◌, ◌∙◌, ap}
use mathlib.Core.Logic.{inl, inr}
use mathlib.Core.Option.{some}
use mathlib.Core.List.{[], ◌∷◌, ◌++◌}
use native.Mathlib.Omega.{arith}
use egress_router.Common.Tests.{nat_eq, if◌then◌else◌, ltb, Bool-cases}
use egress_router.Common.Lists.{All, All-append}
use egress_router.Common.Bytes.{Text}
use egress_router.Common.Numbers.{digits_value}

-- One more round than digits is enough: the number itself bounds its digits.
decimal_from : ℕ → ℕ → Text
decimal_from zero n = []
decimal_from (suc fuel) n =
    let front = decimal_from fuel (n / 10) in
    if ltb n 10 then (b'0' + n) ∷ [] else front ++ ((b'0' + n % 10) ∷ [])

unfoldable pub decimal : ℕ → Text
unfolding decimal_from
decimal n = decimal_from (suc n) n

digits_value-append :
    (s : Text) (acc n d : ℕ)
    → d < 10
    → digits_value acc s ≡ some n
    → digits_value acc (s ++ ((b'0' + d) ∷ [])) ≡ some (n * 10 + d)
unfolding digits_value
digits_value-append [] acc n d h e = ground arith
digits_value-append (c ∷ s) acc n d h e =
    ground (arith, digits_value-append s (acc * 10 + (c - b'0')) n d h)

digits_value_digit : (d : ℕ) → d < 10 → digits_value 0 ((b'0' + d) ∷ []) ≡ some d
unfolding digits_value
digits_value_digit d h = ground arith

digits_value-decimal_from : (fuel n : ℕ) → n < fuel → digits_value 0 (decimal_from fuel n) ≡ some n
unfolding decimal_from
digits_value-decimal_from zero n h = absurd (omega arith)
digits_value-decimal_from (suc fuel) n h = elim (Bool-cases (ltb n 10)) [
  | inl e ↦ rw e (digits_value_digit n (ground arith))
  | inr e ↦ rw e (
      digits_value-append (decimal_from fuel (n / 10)) 0 (n / 10) (n % 10) (omega arith)
        (digits_value-decimal_from fuel (n / 10) (ground arith))
      ∙ ap some (omega arith))
]

-- Every number is read back from its print.
pub digits_value-decimal : (n : ℕ) → digits_value 0 (decimal n) ≡ some n
unfolding decimal
digits_value-decimal n = digits_value-decimal_from (suc n) n (omega arith)

pub decimal-injective : (n m : ℕ) → decimal n ≡ decimal m → n ≡ m
decimal-injective n m h = cc (digits_value-decimal n, digits_value-decimal m, ap (digits_value 0) h)

abbrev pub IsDigit : ℕ → Type 0
IsDigit c = (b'0' ≤ c) × (c ≤ b'9')

decimal_from-All : (fuel n : ℕ) → All IsDigit (decimal_from fuel n)
unfolding decimal_from
decimal_from-All zero n = tt
decimal_from-All (suc fuel) n = elim (Bool-cases (ltb n 10)) [
  | inl e ↦ rw e (ground arith)
  | inr e ↦ rw e (
      All-append IsDigit (decimal_from fuel (n / 10)) _ (decimal_from-All fuel (n / 10))
        (omega arith))
]

pub decimal-All : (n : ℕ) → All IsDigit (decimal n)
unfolding decimal
decimal-All n = decimal_from-All (suc n) n
