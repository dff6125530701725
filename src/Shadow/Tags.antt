-- ===== src/Shadow/Tags.antt =====
-- The tags of the candidate config of `Run` in shadow.go, and the number of its nodes.
use mathlib.Core.Path.{subst}
use egress_router.Common.{
  ℕ, ◌+◌, ◌≤◌, false, Option, some, List, [], ◌∷◌, ◌++◌, map, ◌≡◌, sym, ap, ◌∙◌, arith, Text, lit,
  text_eq, length, contains, Distinct, All-imp, All-map, Result, ok, err, ◌>>=◌, >>=-eq-ok, or_err,
  or_err-eq-ok, String, string_eq, ◌≢◌,
}
use egress_router.Common.Json.{Value, str, obj, Map, get-put, elems-items, get}
use egress_router.Manager.Gather.{tag_of, base_tags, with_tags, on_map}
use egress_router.Shadow.Sources.{AreNodes, AreThere, choose_nodes-AreNodes}
use egress_router.Manager.Tags.{
  get-put_outbounds, outbounds_of, tags_of, AreUnique, AreUnique-append, base_tags-AreChecked,
  tags_of-append, tags_of-map_obj, tags_of-on_map,
}
use egress_router.Manager.Defs.{UpdateError}
use egress_router.Shadow.Defs.{Node, Platform, ShadowError, encode_candidate_failed}
use egress_router.Shadow.Candidate.{
  Chosen, start, choose_node, choose_nodes, shadow_config, or_base_error, candidate,
}
use egress_router.Shadow.Chosen.{fingerprint, IsChosen, start-IsChosen, choose_node-IsStep}

module _ (sys : Platform) (base : List Text) where
  choose_nodes-IsChosen :
      (index : ℕ) (nodes : List (Option Node)) (c : Chosen) {c' : Chosen}
      → IsChosen sys base c
      → choose_nodes sys index nodes c ≡ ok c'
      → IsChosen sys base c'
        × (length c.generated ≤ length c'.generated)
        × (length c'.generated ≤ length c.generated + length nodes)
  unfolding choose_nodes
  choose_nodes-IsChosen index [] c h k =
      subst
        (λ (x : Chosen).
          IsChosen sys base x
          × (length c.generated ≤ length x.generated)
          × (length x.generated ≤ length c.generated + 0))
        (cc k) (h, omega arith, omega arith)
  choose_nodes-IsChosen index (node ∷ nodes) c h k =
      let (c₁, first, rest) =
        >>=-eq-ok (choose_node sys index node c) (λ x. choose_nodes sys (index + 1) nodes x) k in
      let s = choose_node-IsStep sys base index node c h first in
      let (done, low, high) = choose_nodes-IsChosen (index + 1) nodes c₁ s.chosen rest in
      (done, omega (arith, low, s.kept), omega (arith, high, s.one_node))

  -- There is a node, where the snapshot has one.
  choose_nodes-nonempty :
      (index : ℕ) (nodes : List (Option Node)) (c : Chosen) {c' : Chosen}
      → 1 ≤ length nodes
      → IsChosen sys base c
      → choose_nodes sys index nodes c ≡ ok c'
      → 1 ≤ length c'.generated
  unfolding choose_nodes
  choose_nodes-nonempty index [] c n h k = omega arith
  choose_nodes-nonempty index (node ∷ nodes) c n h k =
      let (c₁, first, rest) =
        >>=-eq-ok (choose_node sys index node c) (λ x. choose_nodes sys (index + 1) nodes x) k in
      let s = choose_node-IsStep sys base index node c h first in
      let (_, low, _) = choose_nodes-IsChosen (index + 1) nodes c₁ s.chosen rest in
      omega (arith, low, s.some_node)

outbounds_of-shadow_config :
    (base : Map) (values : List Value) (c : Chosen)
    → outbounds_of (shadow_config base values c)
      ≡ map (on_map (with_tags (map str c.generated))) (values ++ map obj c.outbounds)
unfolding shadow_config
outbounds_of-shadow_config base values c = rw (get-put, elems-items)

get-shadow_config :
    (base : Map) (values : List Value) (c : Chosen) (key : String)
    → key ≢ "outbounds"
    → get key (shadow_config base values c) ≡ get key base
unfolding shadow_config
get-shadow_config base values c key n = get-put_outbounds key _ base n

-- The tags of a candidate are those of the base config and then the generated ones.
tags_of-shadow_config :
    (base : Map) (values : List Value) (c : Chosen)
    → tags_of (outbounds_of (shadow_config base values c))
      ≡ tags_of values ++ map tag_of c.outbounds
tags_of-shadow_config base values c =
    ap tags_of (outbounds_of-shadow_config base values c)
    ∙ tags_of-on_map (map str c.generated) (values ++ map obj c.outbounds)
    ∙ tags_of-append values (map obj c.outbounds)
    ∙ ap (λ l. tags_of values ++ l) (tags_of-map_obj c.outbounds)

shadow_config-AreUnique :
    (sys : Platform) (base : Map) (values : List Value) (tags : List Text) (c : Chosen)
    → base_tags values [] ≡ ok tags
    → IsChosen sys tags c
    → AreUnique (tags_of (outbounds_of (shadow_config base values c)))
shadow_config-AreUnique sys base values tags c h k =
    let b = base_tags-AreChecked values [] tags h in
    subst AreUnique (sym (tags_of-shadow_config base values c)) (
      AreUnique-append (tags_of values) (map tag_of c.outbounds) b.unique k.distinct (
        All-map (λ y. contains (tags_of values) y ≡ false) tag_of c.outbounds
          (All-imp (λ item. contains tags (tag_of item) ≡ false)
            (λ item. contains (tags_of values) (tag_of item) ≡ false)
            (λ item q. ground (arith, b.listed (tag_of item), q)) c.outbounds k.fresh)))

or_base_error-ok :
    {A : Type 0} (r : Result UpdateError A) {a : A} → or_base_error r ≡ ok a → r ≡ ok a
or_base_error-ok (ok a) h = ground arith
or_base_error-ok (err e) h = ground arith

-- What a candidate config is.
pub record IsCandidate (sys : Platform) (nodes : List (Option Node)) (base : Map)
    (values : List Value) (text : Text) (count : ℕ) : Type 0 where
  pub chosen : Chosen
  pub config : Text
  pub encoded : sys.encode_object (shadow_config base values chosen) ≡ some config
  pub others :
      (key : String) → key ≢ "outbounds" → get key (shadow_config base values chosen) ≡ get key base
  pub listed :
      outbounds_of (shadow_config base values chosen)
      ≡ map (on_map (with_tags (map str chosen.generated))) (values ++ map obj chosen.outbounds)
  pub sources : AreNodes sys nodes chosen.outbounds
  pub ended : text ≡ config ++ lit "\n"
  pub tagged : map tag_of chosen.outbounds ≡ chosen.generated
  pub named :
      tags_of (outbounds_of (shadow_config base values chosen)) ≡ tags_of values ++ chosen.generated
  pub unique : AreUnique (tags_of (outbounds_of (shadow_config base values chosen)))
  pub once : Distinct (map (fingerprint sys) chosen.outbounds)
  pub counted : length chosen.generated ≡ count
  pub some_node : 1 ≤ count
  pub few_nodes : count ≤ length nodes

-- The last steps of `candidate`.
abbrev ended : Chosen → Text → Result ShadowError (Text × ℕ)
ended c config = ok (config ++ lit "\n", length c.generated)

abbrev encoded : Platform → Map → List Value → Chosen → Result ShadowError (Text × ℕ)
encoded sys base values c =
    or_err (sys.encode_object (shadow_config base values c)) encode_candidate_failed >>= ended c

pub candidate-IsCandidate :
    (sys : Platform) (nodes : List (Option Node)) (base : Map) (values : List Value) {text : Text}
    {count : ℕ}
    → 1 ≤ length nodes
    → AreThere sys nodes
    → candidate sys nodes (base, values) ≡ ok (text, count)
    → IsCandidate sys nodes base values text count
unfolding candidate
candidate-IsCandidate sys nodes base values {text} {count} n there h =
    let (tags, h₁, k₁) =
      >>=-eq-ok (or_base_error (base_tags values []))
        (λ tags. choose_nodes sys 0 nodes (start tags) >>= encoded sys base values) h in
    let (c, h₂, k₂) =
      >>=-eq-ok (choose_nodes sys 0 nodes (start tags)) (encoded sys base values) k₁ in
    let (config, h₃, k₃) =
      >>=-eq-ok (or_err (sys.encode_object (shadow_config base values c)) encode_candidate_failed)
        (ended c) k₂ in
    let (chosen, _, high) =
      choose_nodes-IsChosen sys tags 0 nodes (start tags) (start-IsChosen sys tags) h₂ in
    let low = choose_nodes-nonempty sys tags 0 nodes (start tags) n (start-IsChosen sys tags) h₂ in
    let counted : length c.generated ≡ count = cc k₃ in
    record {
      chosen = c;
      config = config;
      encoded =
          or_err-eq-ok (sys.encode_object (shadow_config base values c)) encode_candidate_failed h₃;
      ended = cc k₃;
      others = get-shadow_config base values c;
      listed = outbounds_of-shadow_config base values c;
      sources = choose_nodes-AreNodes sys tags nodes there h₂;
      tagged = chosen.same;
      named = tags_of-shadow_config base values c ∙ ap (λ l. tags_of values ++ l) chosen.same;
      unique =
          shadow_config-AreUnique sys base values tags c (or_base_error-ok (base_tags values []) h₁)
            chosen;
      once = chosen.once;
      counted = counted;
      some_node = omega (arith, low, counted);
      few_nodes = omega (arith, high, counted);
    }
