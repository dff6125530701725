-- ===== src/Feed/Lines.antt =====
-- What holds of the lines that `decodeBody` returns.
use egress_router.Common.{
  true, Option, none, some, List, [], ◌∷◌, ◌++◌, ◌≡◌, ◌≢◌, refl, ap, ◌∙◌, inl, inr, Text, lit,
  nat_eq, text_beq, text_eq, All, Bool-cases, contains_text, split, join, trim_space,
}
use egress_router.Common.Splits.{split-All, split-one, split-line}
use egress_router.Base64.{decode_base64}
use egress_router.Feed.Defs.{
  is_entry, entries, entries_of, compact, entries_of_decoded, decode_body,
}
use egress_router.Feed.Trim.{trim_space_idem, trim_space-All}

-- A line that names a node: not empty, no comment, on one line and without white space at its ends.
pub record IsLine (l : Text) : Type 0 where
  pub entry : is_entry l ≡ true
  pub one : All (λ c. c ≢ 10) l
  pub trimmed : trim_space l ≡ l

entries-All : (ls : List Text) → All (All (λ c. c ≢ 10)) ls → All IsLine (entries ls)
unfolding entries
entries-All [] h = tt
entries-All (l ∷ ls) (p, h) = elim (Bool-cases (is_entry (trim_space l))) [
  | inl e ↦ rw e (
    record { entry = e; one = trim_space-All _ l p; trimmed = trim_space_idem l },
    entries-All ls h,
  )
  | inr e ↦ rw e (entries-All ls h)
]

decoded-All : (o : Option Text) → All IsLine (entries_of_decoded o)
decoded-All none = tt
decoded-All (some s) = entries-All (split 10 s) (split-All 10 s)

-- Whatever a provider sends, each line that is tried as a node is not empty, does not begin with
-- `#`, holds no line feed and has no white space at its ends.
pub decode_body-All : (body : Text) → All IsLine (decode_body body)
unfolding decode_body
decode_body-All body =
    elim (Bool-cases (contains_text (join (lit "\n") (entries_of body)) (lit "://"))) [
      | inl e ↦ rw e (entries-All (split 10 body) (split-All 10 body))
      | inr e ↦ rw e (decoded-All (decode_base64 (compact (join (lit "\n") (entries_of body)))))
    ]

entries_of_empty : entries_of (join (lit "\n") []) ≡ []
unfolding entries join split trim_space lit text_beq
entries_of_empty = refl

entries_fixed : (ls : List Text) → All IsLine ls → entries ls ≡ ls
unfolding entries
entries_fixed [] h = refl
entries_fixed (l ∷ ls) (p, h) = rw (p.trimmed, p.entry, entries_fixed ls h)

newline-append : (s : Text) → lit "\n" ++ s ≡ 10 ∷ s
unfolding lit
newline-append s = refl

join-cons :
    (sep l k : Text) (ls : List Text) → join sep (l ∷ k ∷ ls) ≡ l ++ (sep ++ join sep (k ∷ ls))
unfolding join
join-cons sep l k ls = refl

pub join-one : (sep l : Text) → join sep (l ∷ []) ≡ l
unfolding join
join-one sep l = refl

split-join :
    (l : Text) (ls : List Text) → All IsLine (l ∷ ls) → split 10 (join (lit "\n") (l ∷ ls)) ≡ l ∷ ls
split-join l [] (p, h) = rw join-one (split-one 10 l p.one)
split-join l (k ∷ ls) (p, h) =
    rw (join-cons, newline-append) (split-line 10 l _ p.one ∙ ap (λ r. l ∷ r) (split-join k ls h))

pub entries_of-join : (ls : List Text) → All IsLine ls → entries_of (join (lit "\n") ls) ≡ ls
entries_of-join [] h = entries_of_empty
entries_of-join (l ∷ ls) h = rw (split-join l ls h) (entries_fixed (l ∷ ls) h)

-- A feed in plain text that holds `://` and whose lines each name a node is read as these lines.
pub decode_body-join :
    (ls : List Text)
    → All IsLine ls
    → contains_text (join (lit "\n") ls) (lit "://") ≡ true
    → decode_body (join (lit "\n") ls) ≡ ls
unfolding decode_body
decode_body-join ls h c = rw (entries_of-join ls h, c)
