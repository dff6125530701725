-- ===== src/Common/Splits.antt =====
-- What `split` makes of a text.
use Prim.Native.Nat.{ℕ}
use mathlib.Core.Path.{◌≡◌, refl}
use mathlib.Core.Logic.{◌≢◌, inl, inr}
use mathlib.Core.List.{List, [], ◌∷◌, ◌++◌}
use native.Mathlib.Omega.{arith}
use egress_router.Common.Tests.{◌==◌, nat_eq, Bool-cases}
use egress_router.Common.Lists.{All}
use egress_router.Common.Bytes.{Text}
use egress_router.Common.Strings.{split, onto_first}

onto_first-All :
    (P : ℕ → Type 0) (c : ℕ) (ls : List Text) → P c → All (All P) ls → All (All P) (onto_first c ls)
onto_first-All P c [] p h = ((p, tt), tt)
onto_first-All P c (l ∷ ls) p (k, h) = ((p, k), h)

pub split-All : (sep : ℕ) (s : Text) → All (All (λ c. c ≢ sep)) (split sep s)
unfolding split
split-All sep [] = (tt, tt)
split-All sep (c ∷ s) = elim (Bool-cases (c == sep)) [
  | inl e ↦ rw e (tt, split-All sep s)
  | inr e ↦ rw e (onto_first-All _ c (split sep s) (ground arith) (split-All sep s))
]

pub split-one : (sep : ℕ) (l : Text) → All (λ c. c ≢ sep) l → split sep l ≡ l ∷ []
unfolding split
split-one sep [] h = refl
split-one sep (c ∷ l) (n, h) = ground (arith, split-one sep l h)

pub split-line :
    (sep : ℕ) (l s : Text) → All (λ c. c ≢ sep) l → split sep (l ++ (sep ∷ s)) ≡ l ∷ split sep s
unfolding split
split-line sep [] s h = ground arith
split-line sep (c ∷ l) s (n, h) = ground (arith, split-line sep l s h)
