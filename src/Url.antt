-- ===== src/Url.antt =====
-- net/url as the program uses it. `url.Parse` itself is a parameter of the model (`Node.ParseUrl`);
-- its result, the percent escapes and the query are modelled.
use mathlib.Core.Option
use egress_router.Common.{
  ℕ, ◌+◌, ◌-◌, ◌*◌, Bool, true, false, ◌&&◌, Option, none, some, List, [], ◌∷◌, ◌≡◌, refl, arith,
  Text, lit, ◌==◌, nat_eq, text_beq, text_beq_iff, text_eq, if◌then◌else◌, leb, cut, split,
  contains,
}

pub record UserInfo : Type 0 where
  pub username : Text
  pub password : Option Text

-- A parsed `*url.URL`; `hostname` and `port` are the results of Hostname() and Port().
pub record Url : Type 0 where
  pub scheme : Text
  pub user : Option UserInfo
  pub hostname : Text
  pub port : Text
  pub raw_query : Text
  pub fragment : Text

abbrev hex_digit : ℕ → Option ℕ
hex_digit c =
    if leb b'0' c && leb c b'9'
    then some (c - b'0')
    else if leb b'a' c && leb c b'f'
    then some (c - b'a' + 10)
    else if leb b'A' c && leb c b'F'
    then some (c - b'A' + 10)
    else none

abbrev hex_pair : ℕ → ℕ → Option ℕ
hex_pair a b = elim (hex_digit a) [
  | none ↦ none
  | some x ↦ Option.map (λ y. x * 16 + y) (hex_digit b)
]

abbrev prepend : ℕ → Option Text → Option Text
prepend c s = Option.map (λ t. c ∷ t) s

-- A byte outside an escape: in a query `+` is a space.
abbrev plain : Bool → ℕ → ℕ
plain in_query c = if in_query && c == b'+' then b' ' else c

unfoldable pub unescape : Bool → Text → Option Text
unescape q [] = some []
unescape q (c ∷ []) = if c == b'%' then none else some (plain q c ∷ [])
unescape q (c ∷ a ∷ []) = elim (c == b'%') [
  | true ↦ none
  | false ↦ prepend (plain q c) (unescape q (a ∷ []))
]
unescape q (c ∷ a ∷ b ∷ s) = elim (c == b'%') [
  | true ↦ elim (hex_pair a b) [ none ↦ none | some v ↦ prepend v (unescape q s) ]
  | false ↦ prepend (plain q c) (unescape q (a ∷ b ∷ s))
]

-- url.PathUnescape
abbrev pub path_unescape : Text → Option Text
path_unescape s = unescape false s

-- url.Values: the first value of a key is the one that Get returns.
abbrev pub Values : Type 0
Values = List (Text × Text)

abbrev key_and_value : Option (Text × Text) → Text → Text × Text
key_and_value none s = (s, [])
key_and_value (some kv) s = kv

abbrev both : Option Text → Option Text → Option (Text × Text)
both (some k) (some v) = some (k, v)
both _ _ = none

-- One setting of a query, `key=value`.
setting : Text → Option (Text × Text)
unfolding cut unescape
setting s = let (k, v) = key_and_value (cut b'=' s) s in both (unescape true k) (unescape true v)

abbrev prepend_setting : Option (Text × Text) → Option Values → Option Values
prepend_setting (some kv) (some rest) = some (kv ∷ rest)
prepend_setting _ _ = none

settings : List Text → Option Values
settings [] = some []
settings (s ∷ ss) =
    let rest = settings ss in
    if contains s b';' then none else if s == [] then rest else prepend_setting (setting s) rest

-- url.ParseQuery; `none` is any error
unfoldable pub parse_query : Text → Option Values
unfolding settings setting split
parse_query s = settings (split b'&' s)

-- query.Get
unfoldable pub query_get : Values → Text → Text
query_get [] k = []
query_get ((j, v) ∷ q) k = if j == k then v else query_get q k

query_delete : Text → Values → Values
query_delete k [] = []
query_delete k ((j, v) ∷ q) = let rest = query_delete k q in if j == k then rest else (j, v) ∷ rest

-- query.Set
unfoldable pub query_set : Text → Text → Values → Values
unfolding query_delete
query_set k v q = (k, v) ∷ query_delete k q

query_get-query_delete :
    (k j : Text) (q : Values)
    → query_get (query_delete k q) j ≡ (if k == j then [] else query_get q j)
unfolding query_get query_delete
query_get-query_delete k j [] = ground arith
query_get-query_delete k j ((i, v) ∷ q) =
    ground
      (arith, text_beq_iff k j, text_beq_iff i k, text_beq_iff i j, query_get-query_delete k j q)

pub query_get-query_set :
    (k j : Text) (v : Text) (q : Values)
    → query_get (query_set k v q) j ≡ (if k == j then v else query_get q j)
unfolding query_get query_set
query_get-query_set k j v q = ground (arith, query_get-query_delete k j q)

tests :
    (path_unescape (lit "a%20b+") ≡ some (lit "a b+"))
    × (path_unescape (lit "a%2") ≡ none)
    × (parse_query (lit "a=1&b=%41+x&&a=2")
        ≡ some ((lit "a", lit "1") ∷ (lit "b", lit "A x") ∷ (lit "a", lit "2") ∷ []))
    × (parse_query (lit "a=1;b=2") ≡ none)
unfolding unescape parse_query lit text_beq
tests = (refl, refl, refl, refl)
