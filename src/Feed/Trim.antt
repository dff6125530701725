-- ===== src/Feed/Trim.antt =====
-- strings.TrimSpace removes exactly the white space at the two ends.
use mathlib.Core.List.{reverse-append, reverse-reverse}
use egress_router.Common.{
  ℕ, zero, suc, [], ◌∷◌, ◌++◌, reverse, ◌≡◌, refl, sym, ap, ◌∙◌, ◌⊎◌, inl, inr, arith, Text, nat_eq,
  All, All-append_right, All-reverse_aux, drop_spaces, space_width, last_space_width, trim_space,
}

zero-cases : (n : ℕ) → (n ≡ 0) ⊎ ((k : ℕ) × (n ≡ suc k))
zero-cases zero = inl refl
zero-cases (suc k) = inr (k, refl)

-- What is left begins with no space.
drop_spaces-width :
    (width : Text → ℕ) (k : ℕ) (s : Text) → width [] ≡ 0 → width (drop_spaces width k s) ≡ 0
unfolding drop_spaces
drop_spaces-width width zero [] h = h
drop_spaces-width width (suc k) [] h = h
drop_spaces-width width (suc k) (a ∷ s) h = drop_spaces-width width k s h
drop_spaces-width width zero (a ∷ s) h = elim (zero-cases (width (a ∷ s))) [
  | inl e ↦ rw (e, drop_spaces) e
  | inr (k, e) ↦ rw (e, drop_spaces) (drop_spaces-width width k s h)
]

drop_spaces-fixed : (width : Text → ℕ) (s : Text) → width s ≡ 0 → drop_spaces width 0 s ≡ s
unfolding drop_spaces
drop_spaces-fixed width [] h = refl
drop_spaces-fixed width (a ∷ s) h = rw (h, drop_spaces)

-- What is dropped stands in front of what is left.
drop_spaces-suffix :
    (width : Text → ℕ) (k : ℕ) (s : Text) → (t : Text) × (t ++ drop_spaces width k s ≡ s)
unfolding drop_spaces
drop_spaces-suffix width zero [] = ([], refl)
drop_spaces-suffix width (suc k) [] = ([], refl)
drop_spaces-suffix width (suc k) (a ∷ s) =
    let (t, e) = drop_spaces-suffix width k s in (a ∷ t, ap (λ r. a ∷ r) e)
drop_spaces-suffix width zero (a ∷ s) = elim (zero-cases (width (a ∷ s))) [
  | inl e ↦ ([], rw (e, drop_spaces))
  | inr (k, e) ↦
      let (t, f) = drop_spaces-suffix width k s in (a ∷ t, rw (e, drop_spaces) (ap (λ r. a ∷ r) f))
]

space_width-append : (s t : Text) → space_width (s ++ t) ≡ 0 → space_width s ≡ 0
unfolding space_width
space_width-append [] t h = refl
space_width-append (a ∷ []) [] h = h
space_width-append (a ∷ []) (b ∷ []) h = ground arith
space_width-append (a ∷ []) (b ∷ c ∷ t) h = ground arith
space_width-append (a ∷ b ∷ []) [] h = h
space_width-append (a ∷ b ∷ []) (c ∷ t) h = ground arith
space_width-append (a ∷ b ∷ c ∷ s) t h = h

trim_space_ends :
    (s : Text) → (space_width (trim_space s) ≡ 0) × (last_space_width (reverse (trim_space s)) ≡ 0)
unfolding trim_space space_width last_space_width
trim_space_ends s =
    let front = drop_spaces space_width 0 s in
    let back = drop_spaces last_space_width 0 (reverse front) in
    let (cut, e) = drop_spaces-suffix last_space_width 0 (reverse front) in
    let kept : reverse back ++ reverse cut ≡ front =
      sym (reverse-append cut back) ∙ ap reverse e ∙ reverse-reverse front in
    (
      space_width-append (reverse back) (reverse cut)
          (ap space_width kept ∙ drop_spaces-width space_width 0 s refl),
      rw reverse-reverse (drop_spaces-width last_space_width 0 (reverse front) refl),
    )

pub trim_space_fixed :
    (s : Text) → space_width s ≡ 0 → last_space_width (reverse s) ≡ 0 → trim_space s ≡ s
unfolding trim_space
trim_space_fixed s h k =
    rw (drop_spaces-fixed space_width s h, drop_spaces-fixed last_space_width (reverse s) k)
      (reverse-reverse s)

-- Trimming a second time changes nothing.
pub trim_space_idem : (s : Text) → trim_space (trim_space s) ≡ trim_space s
trim_space_idem s = let (h, k) = trim_space_ends s in trim_space_fixed (trim_space s) h k

drop_spaces-All :
    (P : ℕ → Type 0) (width : Text → ℕ) (s : Text) → All P s → All P (drop_spaces width 0 s)
drop_spaces-All P width s h =
    let (t, e) = drop_spaces-suffix width 0 s in
    All-append_right P t (drop_spaces width 0 s) (rw e h)

-- What holds of all bytes of a text holds of those that are left.
pub trim_space-All : (P : ℕ → Type 0) (s : Text) → All P s → All P (trim_space s)
unfolding trim_space
trim_space-All P s h =
    let front = drop_spaces-All P space_width s h in
    let back = drop_spaces-All P last_space_width _ (All-reverse_aux P _ [] front tt) in
    All-reverse_aux P _ [] back tt
