-- ===== src/Shadow/Given.antt =====
-- Where the secret of the command comes from: `Token` of shadow.go.
use egress_router.Common.{
  ℕ, ◌+◌, ◌≤◌, ◌&&◌, not, some, [], ◌∷◌, ◌≡◌, ◌⊎◌, inl, inr, refl, ap, ◌∙◌, arith, Text, ◌==◌,
  text_eq, text_beq_iff, if◌then◌else◌, ltb, length, take, all, trim_space, Result, ok, err,
  Bool-cases, sym, ◌<◌, zero, suc, Option-cases,
}
use mathlib.Core.Path.{subst}
use egress_router.System.Frame.{Fate-cases}
use egress_router.System.{File, fate, World, ReadError, read_file}
use egress_router.Shadow.Defs.{ShadowError, read_token_failed}
use egress_router.Shadow.Access.{token_limit, token_in, is_visible, checked_token, token, passed}

-- Where a token comes from: the value, or the whole content of the file without the space around it.
abbrev pub IsGiven : Text → Text → World → Text → Type 0
IsGiven value file w s =
    ((value ≡ s) × (file ≡ []))
    ⊎ ((value ≡ [])
        × ((f : File) × (w.files file ≡ some f)
            × (length f.content ≤ token_limit)
            × (trim_space f.content ≡ s)))

take_short : (n : ℕ) (s : Text) → length (take n s) < n → take n s ≡ s
take_short zero s h = absurd (omega (arith, h))
take_short (suc n) [] h = refl
take_short (suc n) (c ∷ s) h = ap (λ l. c ∷ l) (take_short n s (omega (arith, h)))

-- What a file of at most `limit` bytes gives, by the test of its first ones.
buffered :
    (limit : ℕ) (content : Text) {t : Text}
    → (if ltb limit (length (take (limit + 1) content))
        then err read_token_failed
        else ok (trim_space (take (limit + 1) content)))
      ≡ ok t
    → (length content ≤ limit) × (trim_space content ≡ t)
buffered limit content {t} h = elim (Bool-cases (ltb limit (length (take (limit + 1) content)))) [
  | inl e ↦ absurd (ground (arith, e, h))
  | inr e ↦
      let whole = take_short (limit + 1) content (ground (arith, e)) in
      (ground (arith, e, ap length whole), subst (λ c. trim_space c ≡ t) whole (of_ok (rw e at h)))
]
  where
    of_ok : {a b : Text} → ◌≡◌ {A = Result ShadowError Text} (ok a) (ok b) → a ≡ b
    of_ok q = cc q

-- What is read of a file without an error is its content.
read_file-content :
    (file : Text) (w : World) {c : Text}
    → (read_file file w).1 ≡ ok c
    → (f : File) × (w.files file ≡ some f) × (f.content ≡ c)
unfolding read_file
read_file-content file w h = elim (Fate-cases (fate w)) [
  | inr (s, g) ↦ absurd (ground (arith, g, h))
  | inl (s, g) ↦ elim (Option-cases (w.files file)) [
    | inl e ↦ absurd (ground (arith, g, e, h))
    | inr (f, e) ↦ (f, e, ground (arith, g, e, h))
  ]
]

token_in-file :
    (file : Text) (w : World) {t : Text}
    → token_in (read_file file w).1 ≡ ok t
    → (f : File) × (w.files file ≡ some f)
      × (length f.content ≤ token_limit)
      × (trim_space f.content ≡ t)
token_in-file file w {t} h = step (read_file file w).1 refl h
  where
    step :
        (r : Result ReadError Text)
        → (read_file file w).1 ≡ r
        → token_in r ≡ ok t
        → (f : File) × (w.files file ≡ some f)
          × (length f.content ≤ token_limit)
          × (trim_space f.content ≡ t)
    step (err _) g q = ground arith
    step (ok c) g q =
        let (f, e, same) = read_file-content file w g in
        let (short, whole) = buffered token_limit c q in
        (
          f,
          e,
          subst (λ d. length d ≤ token_limit) (sym same) short,
          subst (λ d. trim_space d ≡ t) (sym same) whole,
        )

checked_token-same : (value : Text) {s : Text} → checked_token value ≡ ok s → value ≡ s
unfolding checked_token
checked_token-same value h = (passed token_limit (all is_visible value) value h).0

pub token-IsGiven :
    (value file : Text) (w : World) {s : Text}
    → (token value file w).1 ≡ ok s
    → IsGiven value file w s
unfolding token
token-IsGiven value file w {s} h = elim (Bool-cases (not (value == []) && not (file == []))) [
  | inl a ↦ absurd (ground (arith, rw a at h))
  | inr a ↦ elim (Bool-cases (file == [])) [
    | inl b ↦ inl (checked_token-same value (rw (a, b) at h), (text_beq_iff file []).0 b)
    | inr b ↦ inr (
      ground (arith, a, b, text_beq_iff value []),
      from_file (token_in (read_file file w).1) refl (rw (a, b) at h),
    )
  ]
]
  where
    from_file :
        (r : Result ShadowError Text)
        → token_in (read_file file w).1 ≡ r
        → elim r as (λ _. Result ShadowError Text) [ err e ↦ err e | ok t ↦ checked_token t ] ≡ ok s
        → (f : File) × (w.files file ≡ some f)
          × (length f.content ≤ token_limit)
          × (trim_space f.content ≡ s)
    from_file (err e) p q = ground arith
    from_file (ok t) p q =
        let (f, there, short, same) = token_in-file file w p in
        (f, there, short, same ∙ checked_token-same t q)
