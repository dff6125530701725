-- ===== src/Common/Strings.antt =====
-- The functions of Go's `strings` package that the program calls, over bytes.
use egress_router.Common.Bytes.{Text, lit, text_beq, text_eq}
use egress_router.Common.Tests.{◌==◌, nat_eq, if◌then◌else◌, Bool-cases, leb}
use Prim.Native.Nat.{ℕ, zero, suc, ◌+◌}
use mathlib.Core.Bool.{Bool, true, false, ◌||◌, ◌&&◌}
use mathlib.Core.Option.{Option, none, some}
use egress_router.Common.Lists.{contains, All, All-reverse_aux}
use mathlib.Core.Logic.{inl, inr}
use mathlib.Core.Path.{◌≡◌, refl}
use mathlib.Core.List.{List, [], ◌∷◌, ◌++◌, map, reverse}

-- strings.HasPrefix
unfoldable pub has_prefix : Text → Text → Bool
has_prefix s [] = true
has_prefix [] (_ ∷ _) = false
has_prefix (c ∷ s) (d ∷ p) = c == d && has_prefix s p

-- strings.Contains
unfoldable pub contains_text : Text → Text → Bool
unfolding has_prefix
contains_text [] p = has_prefix [] p
contains_text (c ∷ s) p = has_prefix (c ∷ s) p || contains_text s p

abbrev pub onto_first : ℕ → List Text → List Text
onto_first c [] = (c ∷ []) ∷ []
onto_first c (l ∷ ls) = (c ∷ l) ∷ ls

-- strings.Split at a separator of one byte
unfoldable pub split : ℕ → Text → List Text
split sep [] = [] ∷ []
split sep (c ∷ s) = let rest = split sep s in if c == sep then [] ∷ rest else onto_first c rest

-- strings.Join
unfoldable pub join : Text → List Text → Text
join sep [] = []
join sep (l ∷ []) = l
join sep (l ∷ k ∷ ls) = l ++ (sep ++ join sep (k ∷ ls))

abbrev cut_onto : ℕ → Option (Text × Text) → Option (Text × Text)
cut_onto c none = none
cut_onto c (some (a, b)) = some (c ∷ a, b)

-- strings.Cut at a separator of one byte; `none` if it is not found
unfoldable pub cut : ℕ → Text → Option (Text × Text)
cut sep [] = none
cut sep (c ∷ s) = let rest = cut_onto c (cut sep s) in if c == sep then some ([], s) else rest

-- unicode.IsSpace on the UTF-8 encodings of one, two and three bytes
abbrev is_space1 : ℕ → Bool
is_space1 a = a == b' ' || (leb 9 a && leb a 13)

abbrev is_space2 : ℕ → ℕ → Bool
is_space2 a b = a == 0xc2 && (b == 0x85 || b == 0xa0)

abbrev is_space3 : ℕ → ℕ → ℕ → Bool
is_space3 a b c =
    (a == 0xe1 && (b == 0x9a && c == 0x80))
    || ((a == 0xe2
          && b == 0x80
          && ((leb 0x80 c && leb c 0x8a) || (c == 0xa8 || (c == 0xa9 || c == 0xaf))))
        || ((a == 0xe2 && (b == 0x81 && c == 0x9f)) || (a == 0xe3 && (b == 0x80 && c == 0x80))))

-- The number of bytes of the space that a text begins with, 0 if it begins with none.
unfoldable pub space_width : Text → ℕ
space_width [] = 0
space_width (a ∷ []) = if is_space1 a then 1 else 0
space_width (a ∷ b ∷ []) = if is_space1 a then 1 else if is_space2 a b then 2 else 0
space_width (a ∷ b ∷ c ∷ _) =
    if is_space1 a then 1 else if is_space2 a b then 2 else if is_space3 a b c then 3 else 0

-- The same at the end of a text that is given reversed.
unfoldable pub last_space_width : Text → ℕ
last_space_width [] = 0
last_space_width (a ∷ []) = if is_space1 a then 1 else 0
last_space_width (a ∷ b ∷ []) = if is_space1 a then 1 else if is_space2 b a then 2 else 0
last_space_width (a ∷ b ∷ c ∷ _) =
    if is_space1 a then 1 else if is_space2 b a then 2 else if is_space3 c b a then 3 else 0

-- The number counts the bytes of a space that are still to be dropped.
unfoldable pub drop_spaces : (Text → ℕ) → ℕ → Text → Text
drop_spaces width pending [] = []
drop_spaces width (suc k) (a ∷ s) = drop_spaces width k s
drop_spaces width zero (a ∷ s) = elim (width (a ∷ s)) [
  | zero ↦ a ∷ s
  | suc k ↦ drop_spaces width k s
]

-- strings.TrimSpace
unfoldable pub trim_space : Text → Text
unfolding drop_spaces
trim_space s = reverse (drop_spaces last_space_width 0 (reverse (drop_spaces space_width 0 s)))

abbrev pub flush : Text → List Text → List Text
flush [] ls = ls
flush (c ∷ s) ls = (c ∷ s) ∷ ls

-- strings.Fields: `cur` is the field that is open
unfoldable pub fields_from : ℕ → Text → Text → List Text
fields_from pending cur [] = flush cur []
fields_from (suc k) cur (a ∷ s) = fields_from k cur s
fields_from zero cur (a ∷ s) = elim (space_width (a ∷ s)) [
  | zero ↦ fields_from 0 (cur ++ (a ∷ [])) s
  | suc k ↦ flush cur (fields_from k [] s)
]

unfoldable pub fields : Text → List Text
unfolding fields_from space_width
fields s = fields_from 0 [] s

-- strings.ToLower on ASCII letters
abbrev lower : ℕ → ℕ
lower c = if leb b'A' c && leb c b'Z' then c + 32 else c

unfoldable pub to_lower : Text → Text
to_lower s = map lower s

-- strings.EqualFold, where one of the texts is ASCII letters without `k` and `s`
unfoldable pub equal_fold : Text → Text → Bool
unfolding to_lower
equal_fold s t = to_lower s == to_lower t

-- strings.Trim with a cutset of one byte
drop_byte : ℕ → Text → Text
drop_byte b [] = []
drop_byte b (c ∷ s) = let rest = drop_byte b s in if c == b then rest else c ∷ s

unfoldable pub trim : ℕ → Text → Text
unfolding drop_byte
trim b s = reverse (drop_byte b (reverse (drop_byte b s)))

drop_byte-All : (P : ℕ → Type 0) (b : ℕ) (s : Text) → All P s → All P (drop_byte b s)
unfolding drop_byte
drop_byte-All P b [] h = h
drop_byte-All P b (c ∷ s) (p, h) = elim (Bool-cases (c == b)) [
  | inl e ↦ rw e (drop_byte-All P b s h)
  | inr e ↦ rw e (p, h)
]

pub trim-All : (P : ℕ → Type 0) (b : ℕ) (s : Text) → All P s → All P (trim b s)
unfolding trim
trim-All P b s h =
    All-reverse_aux P _ [] (drop_byte-All P b _ (All-reverse_aux P _ [] (drop_byte-All P b s h) tt))
      tt

-- strings.ContainsAny with the bytes of the second text
unfoldable pub contains_any : Text → Text → Bool
contains_any [] cs = false
contains_any (c ∷ s) cs = contains cs c || contains_any s cs

tests :
    (split b',' (lit "a,,b") ≡ lit "a" ∷ [] ∷ lit "b" ∷ [])
    × (trim_space (lit " \t a b\r\n") ≡ lit "a b")
    × (fields (lit " ab  c\n") ≡ lit "ab" ∷ lit "c" ∷ [])
    × (cut b':' (lit "a:b:c") ≡ some (lit "a", lit "b:c"))
    × (contains_text (lit "vless://x") (lit "://") ≡ true)
    × (trim b'-' (lit "--a-b-") ≡ lit "a-b")
    × (equal_fold (lit "TrUe") (lit "true") ≡ true)
unfolding split lit trim_space fields cut contains_text trim equal_fold space_width last_space_width
    text_beq
tests = (refl, refl, refl, refl, refl, refl, refl)
