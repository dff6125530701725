-- ===== src/Manager/Names/Laws.antt =====
-- The names of nodes are safe and short, and the index makes the tags distinct within a feed.
use mathlib.Core.List.{reverse-append, reverse-cons, reverse-reverse, append_assoc}
use egress_router.Common.{
  ℕ, ◌+◌, ◌≤◌, Bool, true, false, [], ◌∷◌, ◌++◌, Text, lit, ◌==◌, nat_eq, text_eq, if◌then◌else◌,
  length, length-append, length-take, take, trim, trim-All, decimal, decimal-All, decimal-injective,
  IsDigit, All, All-append, All-take, All-imp, ◌≡◌, ◌≢◌, refl, sym, ap, ◌∙◌, reverse,
  All-reverse_aux, arith, Bool-cases, inl, inr,
}
use egress_router.Node.{ParseUrl}
use egress_router.Manager.Names.{
  is_safe, replace_from, replace_unsafe, or_node, node_name, fragment, node_tag,
}

abbrev pub IsSafe : ℕ → Type 0
IsSafe c = is_safe c ≡ true

dash_or_rest : (s : Text) (b : Bool) → All IsSafe s → All IsSafe (if b then s else b'-' ∷ s)
dash_or_rest s true h = h
dash_or_rest s false h = (refl, h)

replace_from-All : (b : Bool) (s : Text) → All IsSafe (replace_from b s)
unfolding replace_from
replace_from-All b [] = tt
replace_from-All b (c ∷ s) = elim (Bool-cases (is_safe c)) [
  | inl e ↦ rw e (e, replace_from-All false s)
  | inr e ↦ rw e (dash_or_rest _ b (replace_from-All true s))
]

or_node-All : (s : Text) → All IsSafe s → All IsSafe (or_node s)
unfolding lit
or_node-All s h = elim (Bool-cases (s == [])) [
  | inl e ↦ rw e (refl, (refl, (refl, (refl, tt))))
  | inr e ↦ rw e h
]

or_node-length : (s : Text) → length s ≤ 36 → length (or_node s) ≤ 36
unfolding lit
or_node-length s h = ground arith

digit-IsSafe : (c : ℕ) → IsDigit c → IsSafe c
digit-IsSafe c h = ground arith

-- A name that is made of a fragment has only the bytes A-Z, a-z, 0-9, `_` and `-`, and at most 37
-- of them stand before its index.
pub node_name-IsSafe :
    (raw : Text) (index : ℕ)
    → All IsSafe (node_name raw index)
      × (length (node_name raw index) ≤ 37 + length (decimal index))
unfolding node_name
node_name-IsSafe raw index =
    let front = take 36 (trim b'-' (replace_unsafe raw)) in
    let safe =
      or_node-All front
        (All-take IsSafe 36 _ (trim-All IsSafe b'-' _ (replace_from-All false raw))) in
    let short = or_node-length front (length-take 36 (trim b'-' (replace_unsafe raw))) in
    let digits = All-imp IsDigit IsSafe digit-IsSafe _ (decimal-All index) in
    (All-append IsSafe (or_node front) _ safe (refl, digits), rw length-append (omega arith))

decimal-NoDash : (n : ℕ) → All (λ c. c ≢ b'-') (decimal n)
decimal-NoDash n = All-imp IsDigit _ (λ c h. omega arith) _ (decimal-All n)

-- What stands before the first dash, from the end of two equal texts.
before_dash :
    (s t u v : Text)
    → All (λ c. c ≢ b'-') s
    → All (λ c. c ≢ b'-') t
    → s ++ (b'-' ∷ u) ≡ t ++ (b'-' ∷ v)
    → s ≡ t
before_dash [] [] u v h k e = refl
before_dash [] (d ∷ t) u v h (k, _) e = ground arith
before_dash (c ∷ s) [] u v (h, _) k e = ground arith
before_dash (c ∷ s) (d ∷ t) u v (_, h) (_, k) e =
    ground (arith, before_dash s t u v h k (ground arith))

reverse_dash : (s u : Text) → reverse u ++ (b'-' ∷ reverse s) ≡ reverse (s ++ (b'-' ∷ u))
reverse_dash s u = simp (reverse-append, reverse-cons, append_assoc)

after_dash :
    (s t u v : Text)
    → All (λ c. c ≢ b'-') u
    → All (λ c. c ≢ b'-') v
    → s ++ (b'-' ∷ u) ≡ t ++ (b'-' ∷ v)
    → u ≡ v
after_dash s t u v h k e =
    let flipped : reverse u ++ (b'-' ∷ reverse s) ≡ reverse v ++ (b'-' ∷ reverse t) =
      reverse_dash s u ∙ ap reverse e ∙ sym (reverse_dash t v) in
    sym (reverse-reverse u)
    ∙ ap reverse (
        before_dash (reverse u) (reverse v) _ _ (All-reverse_aux _ u [] h tt)
          (All-reverse_aux _ v [] k tt) flipped)
    ∙ reverse-reverse v

node_tag_split :
    (parse_url : ParseUrl) (name raw : Text) (index : ℕ)
    → (front : Text) × (node_tag parse_url name raw index ≡ front ++ (b'-' ∷ decimal (index + 1)))
unfolding node_tag node_name
node_tag_split parse_url name raw index =
    let front = or_node (take 36 (trim b'-' (replace_unsafe (fragment parse_url raw)))) in
    (lit "sub-" ++ (replace_unsafe name ++ (lit "-" ++ front)), simp append_assoc)

-- Two nodes of one feed, or of two, have equal tags only at the same index, whatever their
-- fragments and the names of their subscriptions are.
pub node_tag-index :
    (parse_url : ParseUrl) (name name' raw raw' : Text) (i j : ℕ)
    → node_tag parse_url name raw i ≡ node_tag parse_url name' raw' j
    → i ≡ j
node_tag-index parse_url name name' raw raw' i j e =
    let (front, h) = node_tag_split parse_url name raw i in
    let (front', h') = node_tag_split parse_url name' raw' j in
    omega (
      arith,
      decimal-injective (i + 1) (j + 1) (
          after_dash front front' _ _ (decimal-NoDash (i + 1)) (decimal-NoDash (j + 1))
            (sym h ∙ e ∙ h')),
    )
