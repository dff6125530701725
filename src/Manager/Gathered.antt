-- ===== src/Manager/Gathered.antt =====
-- What the loop over the providers has gathered, and how one node changes it.
use egress_router.Common.{
  ℕ, suc, ◌≤◌, true, false, ◌||◌, List, [], ◌∷◌, ◌++◌, map, ◌≡◌, refl, sym, ap, ◌∙◌, arith, Text,
  ◌==◌, text_eq, text_beq_iff, length, contains, Distinct, All, All-append, All-imp, Bool-cases,
  inl, inr,
}
use mathlib.Core.Path.{subst}
use egress_router.Common.Json.{Map, erase, as_text}
use egress_router.Node.{NodeError}
use egress_router.Node.WellFormed.{IsNode}
use egress_router.Manager.Defs.{Platform}
use egress_router.Manager.Gather.{tag_of, Gathered, skip_node, add_node}

-- The key under which `buildState` remembers a node: its JSON text without the tag.
abbrev pub fingerprint : Platform → Map → Text
fingerprint sys item = sys.marshal (erase "tag" item)

abbrev pub Has : List Text → Text → Type 0
Has ts t = contains ts t ≡ true

module _ (f : Map → Text) (ts : List Text) where
  pub absent :
      (items : List Map) (t : Text)
      → All (λ item. Has ts (f item)) items
      → contains ts t ≡ false
      → contains (map f items) t ≡ false
  absent [] t h k = refl
  absent (item ∷ items) t (p, h) k = ground (arith, absent items t h k, text_beq_iff (f item) t)

pub contains-append :
    (xs : List Text) (a b : Text) → contains (xs ++ (a ∷ [])) b ≡ (contains xs b || a == b)
contains-append [] a b = ground arith
contains-append (x ∷ xs) a b = ground (arith, contains-append xs a b)

pub Distinct-snoc :
    (xs : List Text) (a : Text) → Distinct xs → contains xs a ≡ false → Distinct (xs ++ (a ∷ []))
Distinct-snoc [] a h k = (refl, tt)
Distinct-snoc (x ∷ xs) a (p, h) k = (
  ground (arith, contains-append xs a x, text_beq_iff a x, text_beq_iff x a),
  Distinct-snoc xs a h (ground arith),
)

pub map-append :
    (f : Map → Text) (xs : List Map) (a : Map) → map f (xs ++ (a ∷ [])) ≡ map f xs ++ (f a ∷ [])
map-append f [] a = refl
map-append f (x ∷ xs) a = ap (λ l. f x ∷ l) (map-append f xs a)

-- The outbounds are nodes; their tags differ from each other and from the tags of the base config;
-- no two are equal but for the tag; and at most 20 warnings are kept.
pub record IsGathered (sys : Platform) (base : List Text) (g : Gathered) : Type 0 where
  pub added : List Text
  pub known : g.tags ≡ added ++ base
  pub listed : All (λ item. Has g.tags (tag_of item)) g.outbounds
  pub fresh : All (λ item. contains base (tag_of item) ≡ false) g.outbounds
  pub distinct : Distinct (map tag_of g.outbounds)
  pub seen : All (λ item. Has g.seen (fingerprint sys item)) g.outbounds
  pub once : Distinct (map (fingerprint sys) g.outbounds)
  pub nodes : All (λ item. IsNode (tag_of item) item) g.outbounds
  pub few : length g.warnings ≤ 20

pub length-snoc : {A : Type 0} (xs : List A) (a : A) → length (xs ++ (a ∷ [])) ≡ suc (length xs)
length-snoc [] a = refl
length-snoc (x ∷ xs) a = ap suc (length-snoc xs a)

named : (tag : Text) (item : Map) → IsNode tag item → tag_of item ≡ tag
named tag item n = ap as_text n.tagged

pub unknown :
    (added base : List Text) (t : Text)
    → contains (added ++ base) t ≡ false
    → contains base t ≡ false
unknown [] base t h = h
unknown (x ∷ added) base t h = unknown added base t (ground (arith, h))

pub snoc :
    (f : Map → Text) (items : List Map) (item : Map)
    → Distinct (map f items)
    → contains (map f items) (f item) ≡ false
    → Distinct (map f (items ++ (item ∷ [])))
snoc f items item h k =
    subst Distinct (sym (map-append f items item)) (Distinct-snoc (map f items) (f item) h k)

module _ (sys : Platform) (base : List Text) where
  pub skip_node-IsGathered :
      (provider index : ℕ) (e : NodeError) (g : Gathered)
      → IsGathered sys base g
      → IsGathered sys base (skip_node provider index e g)
  unfolding skip_node
  skip_node-IsGathered provider index e g h = record {
    added = h.added;
    known = h.known;
    listed = h.listed;
    fresh = h.fresh;
    distinct = h.distinct;
    seen = h.seen;
    once = h.once;
    nodes = h.nodes;
    few = ground (
      arith,
      h.few,
      length-snoc g.warnings (record { provider = provider; node = index; reason = e }),
    );
  }

  -- More keys are known after a node.
  more :
      (f : Map → Text) (t : Text) (ts : List Text) (items : List Map)
      → All (λ item. Has ts (f item)) items
      → All (λ item. Has (t ∷ ts) (f item)) items
  more f t ts items h =
      All-imp (λ item. Has ts (f item)) (λ item. Has (t ∷ ts) (f item))
        (λ item k. ground (arith, k)) items h

  pub add_node-IsGathered :
      (tag : Text) (item : Map) (g : Gathered)
      → IsNode tag item
      → contains g.tags tag ≡ false
      → IsGathered sys base g
      → IsGathered sys base (add_node sys tag item g)
  unfolding add_node
  add_node-IsGathered tag item g n k h =
      elim (Bool-cases (contains g.seen (fingerprint sys item))) [
        | inl e ↦ rw e (record {
          added = tag ∷ h.added;
          known = ap (λ ts. tag ∷ ts) h.known;
          listed = more tag_of tag g.tags g.outbounds h.listed;
          fresh = h.fresh;
          distinct = h.distinct;
          seen = h.seen;
          once = h.once;
          nodes = h.nodes;
          few = h.few;
        })
        | inr e ↦ rw e (record {
          added = tag ∷ h.added;
          known = ap (λ ts. tag ∷ ts) h.known;
          listed =
              All-append (λ i. Has (tag ∷ g.tags) (tag_of i)) g.outbounds (item ∷ [])
                (more tag_of tag g.tags g.outbounds h.listed)
                (ground (arith, named tag item n, text_beq_iff tag (tag_of item)), tt);
          fresh =
              All-append (λ i. contains base (tag_of i) ≡ false) g.outbounds (item ∷ []) h.fresh
                (
                  ap (contains base) (named tag item n)
                      ∙ unknown h.added base tag (ap (λ ts. contains ts tag) (sym h.known) ∙ k),
                  tt,
                );
          distinct = snoc tag_of g.outbounds item h.distinct (
              absent tag_of g.tags g.outbounds (tag_of item) h.listed
                (ap (contains g.tags) (named tag item n) ∙ k));
          seen =
              All-append (λ i. Has (fingerprint sys item ∷ g.seen) (fingerprint sys i)) g.outbounds
                (item ∷ [])
                (more (fingerprint sys) (fingerprint sys item) g.seen g.outbounds h.seen)
                (ground (arith, text_beq_iff (fingerprint sys item) (fingerprint sys item)), tt);
          once =
              snoc (fingerprint sys) g.outbounds item h.once
                (absent (fingerprint sys) g.seen g.outbounds (fingerprint sys item) h.seen e);
          nodes =
              All-append (λ i. IsNode (tag_of i) i) g.outbounds (item ∷ []) h.nodes
                (subst (λ t. IsNode t item) (sym (named tag item n)) n, tt);
          few = h.few;
        })
      ]
