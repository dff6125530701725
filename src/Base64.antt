-- ===== src/Base64.antt =====
-- encoding/base64 as the program uses it, and `decodeBase64`, which
-- subscription-manager/main.go and catalog-client/internal/nodeuri/parse.go both define.
pub mod RoundTrip
use mathlib.Core.Option
use mathlib.Core.List.{filter_map}
use egress_router.Common.{
  ℕ, ◌+◌, ◌-◌, ◌*◌, ◌/◌, ◌%◌, Bool, true, false, ◌&&◌, ◌||◌, Option, none, some, List, [], ◌∷◌, ◌≡◌,
  refl, Text, lit, ◌==◌, nat_eq, if◌then◌else◌, leb,
}

-- StdEncoding, RawStdEncoding, URLEncoding and RawURLEncoding differ in two ways.
pub record Encoding : Type 0 where
  pub url : Bool
  pub padded : Bool

abbrev pub std : Encoding
std = record { url = false; padded = true }

abbrev pub raw_std : Encoding
raw_std = record { url = false; padded = false }

abbrev pub url_safe : Encoding
url_safe = record { url = true; padded = true }

abbrev pub raw_url : Encoding
raw_url = record { url = true; padded = false }

infixl 5 ◌>>=◌
abbrev ◌>>=◌ : {A B : Type 0} → Option A → (A → Option B) → Option B
none >>= f = none
some a >>= f = f a

-- The six bits that a letter of the alphabet stands for.
unfoldable pub value : Bool → ℕ → Option ℕ
value url c =
    if leb b'A' c && leb c b'Z'
    then some (c - b'A')
    else if leb b'a' c && leb c b'z'
    then some (c - b'a' + 26)
    else if leb b'0' c && leb c b'9'
    then some (c - b'0' + 52)
    else if c == (if url then b'-' else b'+')
    then some 62
    else if c == (if url then b'_' else b'/')
    then some 63
    else none

-- One, two or three bytes from two, three or four letters; spare bits are ignored.
abbrev bytes2 : Option ℕ → Option ℕ → Option Text
bytes2 v w = do a ← v; b ← w; some ((a * 4 + b / 16) ∷ [])

abbrev bytes3 : Option ℕ → Option ℕ → Option ℕ → Option Text
bytes3 u v w = do a ← u; b ← v; c ← w; some ((a * 4 + b / 16) ∷ (b % 16 * 16 + c / 4) ∷ [])

abbrev bytes4 : Option ℕ → Option ℕ → Option ℕ → Option ℕ → Option Text → Option Text
bytes4 t u v w rest = do
  a ← t
  b ← u
  c ← v
  d ← w
  more ← rest
  some ((a * 4 + b / 16) ∷ (b % 16 * 16 + c / 4) ∷ (c % 4 * 64 + d) ∷ more)

-- The last quantum of a padded text: nothing may follow it.
abbrev padded_end : Bool → ℕ → ℕ → ℕ → Text → Option Text
padded_end url a b c [] =
    if c == b'='
    then bytes2 (value url a) (value url b)
    else bytes3 (value url a) (value url b) (value url c)
padded_end url a b c (_ ∷ _) = none

-- Quantum by quantum, in a text without line ends.
unfoldable pub decode_quanta : Encoding → Text → Option Text
decode_quanta e [] = some []
decode_quanta e (a ∷ []) = none
decode_quanta e (a ∷ b ∷ []) = if e.padded then none else bytes2 (value e.url a) (value e.url b)
decode_quanta e (a ∷ b ∷ c ∷ []) =
    if e.padded then none else bytes3 (value e.url a) (value e.url b) (value e.url c)
decode_quanta e (a ∷ b ∷ c ∷ d ∷ s) =
    let rest = decode_quanta e s in
    if e.padded && d == b'='
    then padded_end e.url a b c s
    else bytes4 (value e.url a) (value e.url b) (value e.url c) (value e.url d) rest

unfoldable pub without_line_ends : Text → Text
without_line_ends [] = []
without_line_ends (c ∷ s) =
    let rest = without_line_ends s in if c == 10 || c == 13 then rest else c ∷ rest

-- encoding.DecodeString
unfoldable pub decode_string : Encoding → Text → Option Text
unfolding decode_quanta without_line_ends value
decode_string e s = decode_quanta e (without_line_ends s)

first_decoded : List Encoding → Text → Option Text
first_decoded [] s = none
first_decoded (e ∷ es) s = elim (decode_string e s) [
  | some decoded ↦ some decoded
  | none ↦ first_decoded es s
]

-- `decodeBase64`: the first encoding that accepts the text
unfoldable pub decode_base64 : Text → Option Text
unfolding first_decoded
decode_base64 s = first_decoded (std ∷ raw_std ∷ url_safe ∷ raw_url ∷ []) s

decode_tests :
    (decode_base64 (lit "aGVsbG8=") ≡ some (lit "hello"))
    × (decode_base64 (lit "aGVsbG8") ≡ some (lit "hello"))
    × (decode_base64 (lit "_-8=") ≡ some (255 ∷ 239 ∷ []))
    × (decode_base64 (lit "aGVsbG8=x") ≡ none)
    × (decode_base64 (lit "a:b") ≡ none)
unfolding decode_base64 decode_string lit
decode_tests = (refl, refl, refl, refl, refl)
