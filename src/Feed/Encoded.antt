-- ===== src/Feed/Encoded.antt =====
-- A feed that is base64 as a whole.
use mathlib.Core.List.{append-nil, append_assoc}
use egress_router.Common.{
  ℕ, ◌+◌, ◌*◌, ◌/◌, ◌%◌, ◌<◌, Bool, true, false, List, [], ◌∷◌, ◌++◌, ◌≡◌, ◌≢◌, refl, ap, ◌∙◌,
  arith, Text, lit, nat_eq, text_beq, text_eq, All, All-imp, All-reverse_aux, has_prefix,
  contains_text, split, join, fields, fields_from, flush, space_width, last_space_width, trim_space,
}
use egress_router.Base64.{Encoding, decode_base64}
use egress_router.Base64.RoundTrip.{letter, pad, encode, IsByte, decode_base64-encode}
use egress_router.Feed.Defs.{
  is_entry, entries, entries_of, compact, entries_of_decoded, decode_body,
}
use egress_router.Feed.Trim.{trim_space_fixed}
use egress_router.Feed.Lines.{IsLine, entries_of-join, join-one}

-- A byte of a base64 text.
record IsLetter (c : ℕ) : Type 0 where
  graphic : 32 < c
  ascii : c < 128
  no_hash : c ≢ b'#'
  no_colon : c ≢ b':'

letter-IsLetter : (url : Bool) (n : ℕ) → n < 64 → IsLetter (letter url n)
unfolding letter
letter-IsLetter true n h = ground arith
letter-IsLetter false n h = ground arith

pad-All : (b : Bool) (s : Text) → All IsLetter s → All IsLetter (pad b s)
pad-All true s h = h
pad-All false s h = tt

encode-All : (e : Encoding) (s : Text) → All IsByte s → All IsLetter (encode e s)
unfolding encode
encode-All e [] h = tt
encode-All e (x ∷ []) (p, h) = (
  letter-IsLetter e.url (x / 4) (omega arith),
  (letter-IsLetter e.url (x % 4 * 16) (omega arith), pad-All e.padded _ (omega arith)),
)
encode-All e (x ∷ y ∷ []) (p, (q, h)) = (
  letter-IsLetter e.url (x / 4) (omega arith),
  (
    letter-IsLetter e.url (x % 4 * 16 + y / 16) (omega arith),
    (letter-IsLetter e.url (y % 16 * 4) (omega arith), pad-All e.padded _ (omega arith)),
  ),
)
encode-All e (x ∷ y ∷ z ∷ s) (p, (q, (r, h))) = (
  letter-IsLetter e.url (x / 4) (omega arith),
  (
    letter-IsLetter e.url (x % 4 * 16 + y / 16) (omega arith),
    (
      letter-IsLetter e.url (y % 16 * 4 + z / 64) (omega arith),
      (letter-IsLetter e.url (z % 64) (omega arith), encode-All e s h),
    ),
  ),
)

space_width-letters : (s : Text) → All IsLetter s → space_width s ≡ 0
unfolding space_width
space_width-letters [] h = refl
space_width-letters (a ∷ []) h = ground arith
space_width-letters (a ∷ b ∷ []) h = ground arith
space_width-letters (a ∷ b ∷ c ∷ s) (p, (q, (r, h))) = ground arith

last_space_width-letters : (s : Text) → All IsLetter s → last_space_width s ≡ 0
unfolding last_space_width
last_space_width-letters [] h = refl
last_space_width-letters (a ∷ []) h = ground arith
last_space_width-letters (a ∷ b ∷ []) h = ground arith
last_space_width-letters (a ∷ b ∷ c ∷ s) (p, (q, (r, h))) = ground arith

fields_from-letters : (cur s : Text) → All IsLetter s → fields_from 0 cur s ≡ flush (cur ++ s) []
unfolding fields_from
fields_from-letters cur [] h = rw append-nil
fields_from-letters cur (a ∷ s) (p, h) =
    rw (space_width-letters (a ∷ s) (p, h), fields_from)
      (fields_from-letters (cur ++ (a ∷ [])) s h
        ∙ ap (λ t. flush t []) (append_assoc cur (a ∷ []) s))

compact-letters : (s : Text) → All IsLetter s → compact s ≡ s
unfolding fields join
compact-letters [] h = refl
compact-letters (a ∷ s) h = rw (fields_from-letters [] (a ∷ s) h)

contains_text-letters : (s : Text) → All IsLetter s → contains_text s (lit "://") ≡ false
unfolding contains_text has_prefix lit
contains_text-letters [] h = refl
contains_text-letters (a ∷ s) (p, h) = ground (arith, contains_text-letters s h)

letters-entry : (a : ℕ) (s : Text) → All IsLetter (a ∷ s) → is_entry (a ∷ s) ≡ true
unfolding has_prefix lit text_beq
letters-entry a s (p, h) = ground arith

letters-IsLine : (a : ℕ) (s : Text) → All IsLetter (a ∷ s) → IsLine (a ∷ s)
letters-IsLine a s h = record {
  entry = letters-entry a s h;
  one = All-imp _ _ (λ c p. ground arith) (a ∷ s) h;
  trimmed =
      trim_space_fixed (a ∷ s) (space_width-letters (a ∷ s) h)
        (last_space_width-letters _ (All-reverse_aux IsLetter (a ∷ s) [] h tt));
}

entries_of-letters : (a : ℕ) (s : Text) → All IsLetter (a ∷ s) → entries_of (a ∷ s) ≡ (a ∷ s) ∷ []
unfolding join
entries_of-letters a s h = entries_of-join ((a ∷ s) ∷ []) (letters-IsLine a s h, tt)

decode_body_empty : decode_body [] ≡ entries_of_decoded (decode_base64 [])
unfolding decode_body entries split trim_space has_prefix contains_text join fields lit text_beq
decode_body_empty = refl

-- One line of letters is read as base64.
decode_body-letters :
    (s : Text) → All IsLetter s → decode_body s ≡ entries_of_decoded (decode_base64 s)
unfolding decode_body
decode_body-letters [] h = decode_body_empty
decode_body-letters (a ∷ s) h =
    rw (
      entries_of-letters a s h,
      join-one,
      contains_text-letters (a ∷ s) h,
      compact-letters (a ∷ s) h,
    )

-- A feed that is the base64 text, in any of the four encodings, of lines that each name a node is
-- read as these lines.
pub decode_body-encode :
    (padded url : Bool) (ls : List Text)
    → All IsLine ls
    → All IsByte (join (lit "\n") ls)
    → decode_body (encode (record { url = url; padded = padded }) (join (lit "\n") ls)) ≡ ls
decode_body-encode padded url ls h b =
    rw (decode_body-letters _ (encode-All _ _ b), decode_base64-encode _ b padded url)
      (entries_of-join ls h)
