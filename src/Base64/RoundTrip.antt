-- ===== src/Base64/RoundTrip.antt =====
-- Whatever encoding a feed or a credential was written in, `decode_base64` reads it back.
use egress_router.Common.{
  ℕ, ◌+◌, ◌-◌, ◌*◌, ◌/◌, ◌%◌, ◌<◌, Bool, true, false, Option, none, some, [], ◌∷◌, ◌≡◌, refl, ◌⊎◌,
  inl, inr, arith, Text, ◌==◌, nat_eq, if◌then◌else◌, ltb, All, Bool-cases,
}
use egress_router.Base64.{
  Encoding, value, decode_quanta, without_line_ends, decode_string, decode_base64,
}

-- The letter for six bits (RFC 4648).
unfoldable pub letter : Bool → ℕ → ℕ
letter url n =
    if ltb n 26
    then b'A' + n
    else if ltb n 52
    then b'a' + (n - 26)
    else if ltb n 62
    then b'0' + (n - 52)
    else if n == 62
    then (if url then b'-' else b'+')
    else (if url then b'_' else b'/')

abbrev pub pad : Bool → Text → Text
pad true s = s
pad false s = []

-- A text in one of the four encodings.
unfoldable pub encode : Encoding → Text → Text
encode e [] = []
encode e (x ∷ []) =
    letter e.url (x / 4) ∷ letter e.url (x % 4 * 16) ∷ pad e.padded (b'=' ∷ b'=' ∷ [])
encode e (x ∷ y ∷ []) =
    letter e.url (x / 4)
    ∷ letter e.url (x % 4 * 16 + y / 16)
    ∷ letter e.url (y % 16 * 4)
    ∷ pad e.padded (b'=' ∷ [])
encode e (x ∷ y ∷ z ∷ s) =
    letter e.url (x / 4)
    ∷ letter e.url (x % 4 * 16 + y / 16)
    ∷ letter e.url (y % 16 * 4 + z / 64)
    ∷ letter e.url (z % 64)
    ∷ encode e s

abbrev pub IsByte : ℕ → Type 0
IsByte c = c < 256

letter-plain :
    (url : Bool) (n : ℕ)
    → ((letter url n == b'=') ≡ false)
      × ((letter url n == 10) ≡ false)
      × ((letter url n == 13) ≡ false)
unfolding letter
letter-plain true n = ground arith
letter-plain false n = ground arith

value-letter_self : (url : Bool) (n : ℕ) → n < 64 → value url (letter url n) ≡ some n
unfolding value letter
value-letter_self true n h = ground arith
value-letter_self false n h = ground arith

-- Another alphabet reads the same bits or none.
value-letter :
    (url url' : Bool) (n : ℕ)
    → n < 64
    → (value url' (letter url n) ≡ none) ⊎ (value url' (letter url n) ≡ some n)
unfolding value letter
value-letter true false n h = ground arith
value-letter false true n h = ground arith
value-letter true true n h = inr (value-letter_self true n h)
value-letter false false n h = inr (value-letter_self false n h)

without_line_ends-encode : (e : Encoding) (s : Text) → without_line_ends (encode e s) ≡ encode e s
unfolding without_line_ends encode
without_line_ends-encode e [] = refl
without_line_ends-encode e (x ∷ []) =
    ground (arith, letter-plain e.url (x / 4), letter-plain e.url (x % 4 * 16))
without_line_ends-encode e (x ∷ y ∷ []) = ground (
  arith,
  letter-plain e.url (x / 4),
  letter-plain e.url (x % 4 * 16 + y / 16),
  letter-plain e.url (y % 16 * 4),
)
without_line_ends-encode e (x ∷ y ∷ z ∷ s) = ground (
  arith,
  letter-plain e.url (x / 4),
  letter-plain e.url (x % 4 * 16 + y / 16),
  letter-plain e.url (y % 16 * 4 + z / 64),
  letter-plain e.url (z % 64),
  without_line_ends-encode e s,
)

-- The encoding that wrote a text reads it back.
decode_quanta-encode_self :
    (e : Encoding) (s : Text) → All IsByte s → decode_quanta e (encode e s) ≡ some s
unfolding decode_quanta encode
decode_quanta-encode_self e [] h = refl
decode_quanta-encode_self e (x ∷ []) h = elim (Bool-cases e.padded) [
  | inl p ↦
      rw p (ground (arith, value-letter_self e.url (x / 4), value-letter_self e.url (x % 4 * 16)))
  | inr p ↦
      rw p (ground (arith, value-letter_self e.url (x / 4), value-letter_self e.url (x % 4 * 16)))
]
decode_quanta-encode_self e (x ∷ y ∷ []) h = elim (Bool-cases e.padded) [
  | inl p ↦ rw p (
      ground (
        arith,
        letter-plain e.url (y % 16 * 4),
        value-letter_self e.url (x / 4),
        value-letter_self e.url (x % 4 * 16 + y / 16),
        value-letter_self e.url (y % 16 * 4),
      ))
  | inr p ↦ rw p (
      ground (
        arith,
        value-letter_self e.url (x / 4),
        value-letter_self e.url (x % 4 * 16 + y / 16),
        value-letter_self e.url (y % 16 * 4),
      ))
]
decode_quanta-encode_self e (x ∷ y ∷ z ∷ s) h = ground (
  arith,
  letter-plain e.url (z % 64),
  value-letter_self e.url (x / 4),
  value-letter_self e.url (x % 4 * 16 + y / 16),
  value-letter_self e.url (y % 16 * 4 + z / 64),
  value-letter_self e.url (z % 64),
  decode_quanta-encode_self e s,
)

-- `=` is in no alphabet.
value-pad : (url : Bool) → value url b'=' ≡ none
unfolding value
value-pad true = refl
value-pad false = refl

-- Another encoding reads the same bytes or refuses the text.
abbrev Agrees : Option Text → Text → Type 0
Agrees o s = (o ≡ none) ⊎ (o ≡ some s)

module _ (p u p' u' : Bool) where
  abbrev from : Encoding
  from = record { url = u; padded = p }

  abbrev by : Encoding
  by = record { url = u'; padded = p' }

decode_quanta-encode1 :
    (p u p' u' : Bool) (x : ℕ)
    → x < 256
    → Agrees (decode_quanta (by p u p' u') (encode (from p u p' u') (x ∷ []))) (x ∷ [])
unfolding decode_quanta encode
decode_quanta-encode1 true u true u' x h =
    ground (arith, value-letter u u' (x / 4), value-letter u u' (x % 4 * 16))
decode_quanta-encode1 true u false u' x h = ground (arith, value-pad u')
decode_quanta-encode1 false u true u' x h = inl refl
decode_quanta-encode1 false u false u' x h =
    ground (arith, value-letter u u' (x / 4), value-letter u u' (x % 4 * 16))

decode_quanta-encode2 :
    (p u p' u' : Bool) (x y : ℕ)
    → x < 256
    → y < 256
    → Agrees (decode_quanta (by p u p' u') (encode (from p u p' u') (x ∷ y ∷ []))) (x ∷ y ∷ [])
unfolding decode_quanta encode
decode_quanta-encode2 true u false u' x y h k = ground (arith, value-pad u')
decode_quanta-encode2 false u true u' x y h k = inl refl
decode_quanta-encode2 p u p' u' x y h k = ground (
  arith,
  letter-plain u (y % 16 * 4),
  value-letter u u' (x / 4),
  value-letter u u' (x % 4 * 16 + y / 16),
  value-letter u u' (y % 16 * 4),
)

decode_quanta-encode :
    (p u p' u' : Bool) (s : Text)
    → All IsByte s
    → Agrees (decode_quanta (by p u p' u') (encode (from p u p' u') s)) s
unfolding decode_quanta encode
decode_quanta-encode p u p' u' [] h = inr refl
decode_quanta-encode p u p' u' (x ∷ []) h = decode_quanta-encode1 p u p' u' x h.0
decode_quanta-encode p u p' u' (x ∷ y ∷ []) h = decode_quanta-encode2 p u p' u' x y h.0 h.1.0
decode_quanta-encode p u p' u' (x ∷ y ∷ z ∷ s) h = ground (
  arith,
  letter-plain u (z % 64),
  value-letter u u' (x / 4),
  value-letter u u' (x % 4 * 16 + y / 16),
  value-letter u u' (y % 16 * 4 + z / 64),
  value-letter u u' (z % 64),
  decode_quanta-encode p u p' u' s,
)

module _ (s : Text) (h : All IsByte s) where
  decode_string-encode :
      (p u p' u' : Bool) → Agrees (decode_string (by p u p' u') (encode (from p u p' u') s)) s
  unfolding decode_string
  decode_string-encode p u p' u' = rw without_line_ends-encode (decode_quanta-encode p u p' u' s h)

  decode_string-encode_self : (e : Encoding) → decode_string e (encode e s) ≡ some s
  unfolding decode_string
  decode_string-encode_self e = rw without_line_ends-encode (decode_quanta-encode_self e s h)

  -- Bytes that were written in any of the four encodings are read back by `decode_base64`, which
  -- tries the encodings in a fixed order.
  pub decode_base64-encode :
      (padded url : Bool)
      → decode_base64 (encode (record { url = url; padded = padded }) s) ≡ some s
  unfolding decode_base64
  decode_base64-encode p u = ground (
    arith,
    decode_string-encode p u true false,
    decode_string-encode p u false false,
    decode_string-encode p u true true,
    decode_string-encode p u false true,
    decode_string-encode_self (record { url = u; padded = p }),
  )
