-- ===== src/Paths/Termination.antt =====
-- The loop over the directories above an absolute path ends, and visits each of them.
use mathlib.Core.Path.{subst}
use mathlib.Core.List.{reverse-append}
use egress_router.Common.{
  ℕ, zero, suc, ◌+◌, ◌<◌, true, false, ◌||◌, Option, none, some, List, [], ◌∷◌, ◌++◌, reverse, ◌≡◌,
  ◌≢◌, refl, ap, ◌∙◌, arith, Text, lit, ◌==◌, nat_eq, text_eq, text_beq_iff, if◌then◌else◌, split,
  length, All, All-reverse_aux, Bool-cases, inl, inr,
}
use egress_router.Common.Splits.{split-All}
use egress_router.Paths.{
  slash, up, push_component, reduce, is_rooted, shown, clean, dir, absolute, ancestors,
}
use egress_router.Paths.Ancestors.{IsProper, rooted, dir-rooted, dir-root, join-lt}

-- The path of the components in `rs`, the last one first, and the paths above it, down to the root.
abbrev pub path_of : List Text → Text
path_of rs = rooted (reverse rs)

abbrev pub paths_above : List Text → List Text
paths_above [] = rooted [] ∷ []
paths_above (c ∷ rs) = path_of (c ∷ rs) ∷ paths_above rs

reverse-cons : (c : Text) (rs : List Text) → reverse (c ∷ rs) ≡ reverse rs ++ (c ∷ [])
reverse-cons c rs = reverse-append (c ∷ []) rs

reverse-All : (rs : List Text) → All IsProper rs → All IsProper (reverse rs)
reverse-All rs h = All-reverse_aux IsProper rs [] h tt

dir-path_of :
    (c : Text) (rs : List Text) → IsProper c → All IsProper rs → dir (path_of (c ∷ rs)) ≡ path_of rs
dir-path_of c rs p h =
    ap (λ l. dir (rooted l)) (reverse-cons c rs) ∙ dir-rooted (reverse rs) c (reverse-All rs h) p

path_of-lt :
    (c : Text) (rs : List Text) → IsProper c → length (path_of rs) < length (path_of (c ∷ rs))
path_of-lt c rs p =
    omega (arith, ap (λ l. length (rooted l)) (reverse-cons c rs), join-lt (reverse rs) c p.ne_nil)

length-path_of : (rs : List Text) → All IsProper rs → length rs < length (path_of rs)
length-path_of [] h = omega arith
length-path_of (c ∷ rs) (p, h) = omega (arith, length-path_of rs h, path_of-lt c rs p)

-- One round at a path that is, or is not, its own directory.
round_at :
    (rounds : ℕ) (path above : Text)
    → dir path ≡ above
    → ancestors (suc rounds) path ≡ path ∷ (if path == above then [] else ancestors rounds above)
unfolding ancestors
round_at rounds path above e = ap (λ d. path ∷ (if path == d then [] else ancestors rounds d)) e

same_path : (path above : Text) → length above < length path → (path == above) ≡ false
same_path path above l = elim (Bool-cases (path == above)) [
  | inl e ↦ absurd (omega (arith, l, ap length ((text_beq_iff path above).0 e)))
  | inr e ↦ e
]

ancestors-path_of :
    (rounds : ℕ) (rs : List Text)
    → All IsProper rs
    → length rs < rounds
    → ancestors rounds (path_of rs) ≡ paths_above rs
ancestors-path_of zero rs h l = absurd (omega arith)
ancestors-path_of (suc rounds) [] h l =
    round_at rounds (rooted []) (rooted []) dir-root
    ∙ ap (λ b. rooted [] ∷ (if b then [] else ancestors rounds (rooted [])))
        ((text_beq_iff (rooted []) (rooted [])).1 refl)
ancestors-path_of (suc rounds) (c ∷ rs) (p, h) l =
    round_at rounds (path_of (c ∷ rs)) (path_of rs) (dir-path_of c rs p h)
    ∙ ap (λ b. path_of (c ∷ rs) ∷ (if b then [] else ancestors rounds (path_of rs)))
        (same_path (path_of (c ∷ rs)) (path_of rs) (path_of-lt c rs p))
    ∙ ap (λ l. path_of (c ∷ rs) ∷ l) (ancestors-path_of rounds rs h (omega arith))

up-IsProper : (stack : List Text) → All IsProper stack → All IsProper (up true stack)
up-IsProper [] h = tt
up-IsProper (c ∷ cs) (p, h) = elim (Bool-cases (c == lit "..")) [
  | inl e ↦ absurd (p.ne_up ((text_beq_iff c (lit "..")).0 e))
  | inr e ↦ rw e h
]

push_component-IsProper :
    (c : Text) (stack : List Text)
    → All (λ b. b ≢ slash) c
    → All IsProper stack
    → All IsProper (push_component true c stack)
push_component-IsProper c stack n h = elim (Bool-cases (c == [] || c == lit ".")) [
  | inl a ↦ rw a h
  | inr a ↦ elim (Bool-cases (c == lit "..")) [
    | inl b ↦ rw (a, b) (up-IsProper stack h)
    | inr b ↦
        rw (a, b)
          (
            record {
              no_slash = n;
              ne_nil = λ e. ground (arith, a, e, text_beq_iff c []);
              ne_dot = λ e. ground (arith, a, e, text_beq_iff c (lit "."));
              ne_up = λ e. ground (arith, b, e, text_beq_iff c (lit ".."));
            },
            h,
          )
  ]
]

reduce-IsProper :
    (cs stack : List Text)
    → All (All (λ b. b ≢ slash)) cs
    → All IsProper stack
    → All IsProper (reduce true stack cs)
unfolding reduce
reduce-IsProper [] stack n h = h
reduce-IsProper (c ∷ cs) stack (p, n) h =
    reduce-IsProper cs (push_component true c stack) n (push_component-IsProper c stack p h)

-- A cleaned path that is rooted.
record IsClean (path : Text) : Type 0 where
  components : List Text
  proper : All IsProper components
  known : path ≡ path_of components

clean-IsClean : (path : Text) → is_rooted path ≡ true → IsClean (clean path)
unfolding clean
clean-IsClean path h = record {
  components = reduce true [] (split slash path);
  proper = reduce-IsProper (split slash path) [] (split-All slash path) tt;
  known = ap (λ b. shown b (reverse (reduce b [] (split slash path)))) h;
}

-- os.Getwd gives an absolute path, where it gives one.
abbrev pub IsRootedWd : Option Text → Type 0
IsRootedWd none = Unit {0}
IsRootedWd (some wd) = is_rooted wd ≡ true

is_rooted-append : (s t : Text) → is_rooted s ≡ true → is_rooted (s ++ t) ≡ true
is_rooted-append [] t h = ground arith
is_rooted-append (c ∷ s) t h = h

absolute-IsClean :
    (getwd : Option Text) (path : Text) {abs : Text}
    → IsRootedWd getwd
    → absolute getwd path ≡ some abs
    → IsClean abs
unfolding absolute
absolute-IsClean getwd path {abs} r h = elim (Bool-cases (is_rooted path)) [
  | inl e ↦ subst IsClean (cc (rw e at h)) (clean-IsClean path e)
  | inr e ↦ by_wd getwd r (rw e at h)
]
  where
    by_wd :
        (wd : Option Text)
        → IsRootedWd wd
        → elim wd as (λ _. Option Text) [
          | none ↦ none
          | some wd ↦ some (clean (wd ++ (lit "/" ++ path)))
        ]
          ≡ some abs
        → IsClean abs
    by_wd none r q = ground arith
    by_wd (some wd) r q =
        subst IsClean (cc q)
          (clean-IsClean (wd ++ (lit "/" ++ path)) (is_rooted-append wd (lit "/" ++ path) r))

-- The loop over the directories above an absolute path ends after at most as many rounds as the
-- path has bytes, and visits the path and every path above it down to the root, each once, also
-- where more rounds are allowed; os.Getwd gives a rooted path.
pub ancestors-absolute :
    (getwd : Option Text) (path : Text) (k : ℕ) {abs : Text}
    → IsRootedWd getwd
    → absolute getwd path ≡ some abs
    → (rs : List Text) × All IsProper rs
      × (abs ≡ path_of rs)
      × (ancestors (length abs + k) abs ≡ paths_above rs)
ancestors-absolute getwd path k {abs} r h =
    let c = absolute-IsClean getwd path r h in
    (
      c.components,
      c.proper,
      c.known,
      ap (λ p. ancestors (length abs + k) p) c.known
          ∙ ancestors-path_of (length abs + k) c.components c.proper
              (omega (arith, ap length c.known, length-path_of c.components c.proper)),
    )
