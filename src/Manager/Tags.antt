-- ===== src/Manager/Tags.antt =====
-- The tags of a published config.
use mathlib.Core.Path.{subst}
use text.Mathlib.TextEquality.{eq_iff}
use egress_router.Common.{
  some, String, false, ◌&&◌, ◌||◌, not, List, [], ◌∷◌, ◌++◌, map, ◌≡◌, ◌≢◌, ◌⊎◌, inl, inr, refl,
  sym, ap, ◌∙◌, arith, Text, ◌==◌, text_eq, text_beq_iff, string_eq, if◌then◌else◌, contains,
  Distinct, All, All-imp, All-map, Result, ok, err, Bool-cases,
}
use egress_router.Common.Json.{
  put, Value, null, bool, int, float, str, arr, obj, Map, get, get-put, items, elems-items,
  as_array,
}
use egress_router.Manager.Defs.{Platform, UpdateError, base_tag_collision}
use egress_router.Manager.Gather.{
  tag_of, base_tags, Gathered, with_tags, on_map, or_null, generated_tags, splice, or_nil,
}
use egress_router.Manager.Gathered.{IsGathered}

-- The outbounds of a config, and their tags; a value that is no object has none.
abbrev pub outbounds_of : Map → List Value
outbounds_of config = or_nil (as_array (get "outbounds" config))

abbrev pub value_tag : Value → Text
value_tag (obj item) = tag_of item
value_tag _ = []

abbrev pub tags_of : List Value → List Text
tags_of [] = []
tags_of (v ∷ vs) = value_tag v ∷ tags_of vs

-- No tag but the empty one occurs twice.
abbrev pub AreUnique : List Text → Type 0
AreUnique [] = Unit
AreUnique (t ∷ ts) = ((t ≡ []) ⊎ (contains ts t ≡ false)) × AreUnique ts

abbrev pub IsNew : List Text → Text → Type 0
IsNew seen t = (t ≡ []) ⊎ (contains seen t ≡ false)

contains-of-IsNew :
    (t : Text) (seen ts : List Text) → t ≢ [] → All (IsNew (t ∷ seen)) ts → contains ts t ≡ false
contains-of-IsNew t seen [] n h = refl
contains-of-IsNew t seen (u ∷ ts) n (inl e, h) =
    ground (arith, contains-of-IsNew t seen ts n h, e, text_beq_iff u t)
contains-of-IsNew t seen (u ∷ ts) n (inr e, h) =
    ground (arith, contains-of-IsNew t seen ts n h, e, text_beq_iff u t, text_beq_iff t u)

IsNew-tail : (t : Text) (seen ts : List Text) → All (IsNew (t ∷ seen)) ts → All (IsNew seen) ts
IsNew-tail t seen [] h = tt
IsNew-tail t seen (u ∷ ts) (inl e, h) = (inl e, IsNew-tail t seen ts h)
IsNew-tail t seen (u ∷ ts) (inr e, h) = (inr (ground (arith, e)), IsNew-tail t seen ts h)

-- What the loop over the base outbounds establishes.
pub record AreChecked (vs : List Value) (seen tags : List Text) : Type 0 where
  pub unique : AreUnique (tags_of vs)
  pub unseen : All (IsNew seen) (tags_of vs)
  pub listed : (t : Text) → contains tags t ≡ (contains (tags_of vs) t || contains seen t)

not_refused :
    {A : Type 0} (t : Text) (seen : List Text) (r : Result UpdateError A) {a : A}
    → (if not (t == []) && contains seen t then err base_tag_collision else r) ≡ ok a
    → IsNew seen t × (r ≡ ok a)
not_refused t seen r h = elim (Bool-cases (contains seen t)) [
  | inr e ↦ (inr e, ground (arith, e, h))
  | inl e ↦ elim (Bool-cases (t == [])) [
    | inl n ↦ (inl ((text_beq_iff t []).0 n), ground (arith, e, n, h))
    | inr n ↦ absurd (ground (arith, e, n, h))
  ]
]

ok-eq : {xs ys : List Text} → ◌≡◌ {A = Result UpdateError (List Text)} (ok xs) (ok ys) → xs ≡ ys
ok-eq e = cc e

pub base_tags-AreChecked :
    (vs : List Value) (seen tags : List Text)
    → base_tags vs seen ≡ ok tags
    → AreChecked vs seen tags
unfolding base_tags
base_tags-AreChecked [] seen tags h = record {
  unique = tt;
  unseen = tt;
  listed = λ t. ap (λ ts. contains ts t) (sym (ok-eq h));
}
base_tags-AreChecked (obj item ∷ vs) seen tags h =
    let t = tag_of item in
    let (new, rest) = not_refused t seen (base_tags vs (t ∷ seen)) h in
    let c = base_tags-AreChecked vs (t ∷ seen) tags rest in
    record {
      unique = (
        elim (Bool-cases (t == [])) [
          | inl e ↦ inl ((text_beq_iff t []).0 e)
          | inr e ↦ inr (
              contains-of-IsNew t seen (tags_of vs) (λ q. ground (arith, q, e, text_beq_iff t []))
                c.unseen)
        ],
        c.unique,
      );
      unseen = (new, IsNew-tail t seen (tags_of vs) c.unseen);
      listed = λ u. ground (arith, c.listed u);
    }
base_tags-AreChecked (null ∷ vs) seen tags h = ground arith
base_tags-AreChecked (bool b ∷ vs) seen tags h = ground arith
base_tags-AreChecked (int n ∷ vs) seen tags h = ground arith
base_tags-AreChecked (float n ∷ vs) seen tags h = ground arith
base_tags-AreChecked (str s ∷ vs) seen tags h = ground arith
base_tags-AreChecked (arr a ∷ vs) seen tags h = ground arith

contains-none :
    (xs ys : List Text) (a : Text)
    → contains xs a ≡ false
    → contains ys a ≡ false
    → contains (xs ++ ys) a ≡ false
contains-none [] ys a p q = q
contains-none (x ∷ xs) ys a p q = ground (arith, p, contains-none xs ys a (ground (arith, p)) q)

fewer :
    (x : Text) (xs ys : List Text)
    → All (λ y. contains (x ∷ xs) y ≡ false) ys
    → All (λ y. contains xs y ≡ false) ys
fewer x xs [] h = tt
fewer x xs (y ∷ ys) (p, h) = (ground (arith, p), fewer x xs ys h)

pub AreUnique-append :
    (xs ys : List Text)
    → AreUnique xs
    → Distinct ys
    → All (λ y. contains xs y ≡ false) ys
    → AreUnique (xs ++ ys)
AreUnique-append [] [] h k new = tt
AreUnique-append [] (y ∷ ys) h (p, k) (q, new) = (inr p, AreUnique-append [] ys tt k new)
AreUnique-append (x ∷ xs) ys (inl e, h) k new =
    (inl e, AreUnique-append xs ys h k (fewer x xs ys new))
AreUnique-append (x ∷ xs) ys (inr e, h) k new =
    (inr (contains-none xs ys x e (other ys new)), AreUnique-append xs ys h k (fewer x xs ys new))
  where
    other : (zs : List Text) → All (λ y. contains (x ∷ xs) y ≡ false) zs → contains zs x ≡ false
    other [] q = refl
    other (z ∷ zs) (q, r) = ground (arith, q, other zs r, text_beq_iff z x, text_beq_iff x z)

pub tags_of-append : (xs ys : List Value) → tags_of (xs ++ ys) ≡ tags_of xs ++ tags_of ys
tags_of-append [] ys = refl
tags_of-append (x ∷ xs) ys = ap (λ l. value_tag x ∷ l) (tags_of-append xs ys)

pub tags_of-map_obj : (items : List Map) → tags_of (map obj items) ≡ map tag_of items
tags_of-map_obj [] = refl
tags_of-map_obj (i ∷ is) = ap (λ l. tag_of i ∷ l) (tags_of-map_obj is)

pub tag_of-with_tags : (tags : List Value) (item : Map) → tag_of (with_tags tags item) ≡ tag_of item
unfolding with_tags
tag_of-with_tags tags item = ground (
  arith,
  get-put "outbounds" "tag" (arr (items (tags ++ or_nil (as_array (get "outbounds" item))))) item,
)

pub tags_of-on_map :
    (tags : List Value) (vs : List Value) → tags_of (map (on_map (with_tags tags)) vs) ≡ tags_of vs
tags_of-on_map tags [] = refl
tags_of-on_map tags (v ∷ vs) = step v ∙ ap (λ l. value_tag v ∷ l) (tags_of-on_map tags vs)
  where
    step :
        (u : Value)
        → value_tag (on_map (with_tags tags) u) ∷ tags_of (map (on_map (with_tags tags)) vs)
          ≡ value_tag u ∷ tags_of (map (on_map (with_tags tags)) vs)
    step (obj m) =
        ap (λ t. t ∷ tags_of (map (on_map (with_tags tags)) vs)) (tag_of-with_tags tags m)
    step null = refl
    step (bool b) = refl
    step (int n) = refl
    step (float n) = refl
    step (str s) = refl
    step (arr a) = refl

as_array-or_null : (vs : List Value) → or_nil (as_array (some (or_null vs))) ≡ vs
as_array-or_null [] = refl
as_array-or_null (v ∷ vs) = elems-items (v ∷ vs)

-- A config that is published has the outbounds of the base config, its groups with the generated tags
-- in front of their own, and then the nodes.
pub outbounds_of-splice :
    (base : Map) (values : List Value) (outbounds : List Map)
    → outbounds_of (splice base values outbounds)
      ≡ map (on_map (with_tags (generated_tags outbounds))) values ++ map obj outbounds
unfolding splice
outbounds_of-splice base values outbounds = rw get-put (
    as_array-or_null
      (map (on_map (with_tags (generated_tags outbounds))) values ++ map obj outbounds))

-- Putting outbounds into a config changes no other key.
pub get-put_outbounds :
    (key : String) (v : Value) (m : Map)
    → key ≢ "outbounds"
    → get key (put "outbounds" v m) ≡ get key m
get-put_outbounds key v m n = ground (arith, get-put "outbounds" key v m, n, eq_iff "outbounds" key)

-- The tags of a published config are those of the base config and then those of the nodes.
pub tags_of-splice :
    (base : Map) (values : List Value) (outbounds : List Map)
    → tags_of (outbounds_of (splice base values outbounds)) ≡ tags_of values ++ map tag_of outbounds
tags_of-splice base values outbounds =
    ap tags_of (outbounds_of-splice base values outbounds)
    ∙ tags_of-append (map (on_map (with_tags (generated_tags outbounds))) values)
        (map obj outbounds)
    ∙ ap (λ l. l ++ tags_of (map obj outbounds)) (tags_of-on_map (generated_tags outbounds) values)
    ∙ ap (λ l. tags_of values ++ l) (tags_of-map_obj outbounds)

pub splice-AreUnique :
    (sys : Platform) (base : Map) (values : List Value) (tags : List Text) (g : Gathered)
    → base_tags values [] ≡ ok tags
    → IsGathered sys tags g
    → AreUnique (tags_of (outbounds_of (splice base values g.outbounds)))
splice-AreUnique sys base values tags g h sound =
    let c = base_tags-AreChecked values [] tags h in
    subst AreUnique (sym (tags_of-splice base values g.outbounds)) (
      AreUnique-append (tags_of values) (map tag_of g.outbounds) c.unique sound.distinct (
        All-map (λ y. contains (tags_of values) y ≡ false) tag_of g.outbounds
          (All-imp (λ item. contains tags (tag_of item) ≡ false)
            (λ item. contains (tags_of values) (tag_of item) ≡ false)
            (λ item q. ground (arith, c.listed (tag_of item), q)) g.outbounds sound.fresh)))
