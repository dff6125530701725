-- ===== src/Shadow/Sources.antt =====
-- Which nodes of a snapshot the outbounds of a candidate are.
use mathlib.Core.Path.{subst}
use egress_router.Common.{
  ℕ, ◌+◌, true, ◌||◌, Option, some, List, [], ◌∷◌, ◌++◌, map, ◌≡◌, ◌⊎◌, inl, inr, refl, sym, ap,
  ◌∙◌, arith, Text, lit, ◌==◌, text_eq, text_beq_iff, contains, decimal, All, All-append, Result,
  ok, err, >>=-eq-ok, Bool-cases, if◌then◌else◌,
}
use egress_router.Common.Json.{str, Map, put, erase}
use egress_router.Node.{parse_uri, NodeError}
use egress_router.Manager.Gathered.{map-append, contains-append}
use egress_router.Shadow.Defs.{
  Node, Platform, ShadowError, node_parse_failed, outbound_tag_collision,
}
use egress_router.Shadow.Candidate.{
  node_tag, uri_of, Chosen, start, add_node, choose_node, choose_nodes,
}
use egress_router.Shadow.Chosen.{fingerprint, tagged, fingerprint-tagged}

-- A node at an index, with what its URI is parsed to.
pub record IsParsed (sys : Platform) (index : ℕ) (o : Option Node) (item : Map) : Type 0 where
  pub node : Node
  pub there : o ≡ some node
  pub parsed :
      parse_uri sys.parse_url node.uri (lit "catalog-shadow-" ++ decimal (index + 1)) ≡ ok item

-- The outbound of a node: its item, whose tag has its index.
pub record IsOutbound (sys : Platform) (index : ℕ) (o : Option Node) (outbound : Map) : Type 0 where
  pub item : Map
  pub parsed : IsParsed sys index o item
  pub same :
      outbound ≡ put "tag" (str (lit "catalog-shadow-" ++ decimal (index + 1))) (erase "tag" item)

-- A node with an equal outbound, but for the tag, among those of the given marks.
pub record IsShown (sys : Platform) (marks : List Text) (index : ℕ) (o : Option Node) : Type 0 where
  pub item : Map
  pub parsed : IsParsed sys index o item
  pub shown : contains marks (fingerprint sys item) ≡ true

module _ (sys : Platform) where
  -- Some node of the list has the outbound.
  abbrev pub IsFrom : ℕ → List (Option Node) → Map → Type 0
  IsFrom index [] outbound = ⊥
  IsFrom index (o ∷ os) outbound = IsOutbound sys index o outbound ⊎ IsFrom (index + 1) os outbound

  abbrev pub AreShown : List Text → ℕ → List (Option Node) → Type 0
  AreShown marks index [] = Unit {0}
  AreShown marks index (o ∷ os) = IsShown sys marks index o × AreShown marks (index + 1) os

  -- No node is nil.
  abbrev pub AreThere : List (Option Node) → Type 0
  AreThere nodes = All (λ o. (node : Node) × (o ≡ some node)) nodes

  abbrev marks : Chosen → List Text
  marks c = map (fingerprint sys) c.outbounds

  -- What the loop has seen are the marks of its outbounds.
  abbrev IsTracked : Chosen → Type 0
  IsTracked c = (m : Text) → contains c.seen m ≡ contains (marks c) m

  choose_node-parsed :
      (index : ℕ) (o : Option Node) (c : Chosen) {c' : Chosen}
      → ((node : Node) × (o ≡ some node))
      → choose_node sys index o c ≡ ok c'
      → (item : Map) × IsParsed sys index o item × (c' ≡ add_node sys (node_tag index) item c)
  unfolding choose_node
  choose_node-parsed index o c {c'} (node, there) h =
      by_parse (parse_uri sys.parse_url (uri_of o) (node_tag index)) refl h
    where
      of_ok : {a b : Chosen} → ◌≡◌ {A = Result ShadowError Chosen} (ok a) (ok b) → a ≡ b
      of_ok e = cc e

      by_parse :
          (r : Result NodeError Map)
          → parse_uri sys.parse_url (uri_of o) (node_tag index) ≡ r
          → elim r as (λ _. Result ShadowError Chosen) [
            | err _ ↦ err node_parse_failed
            | ok item ↦
                if contains c.tags (node_tag index)
                then err outbound_tag_collision
                else ok (add_node sys (node_tag index) item c)
          ]
            ≡ ok c'
          → (item : Map) × IsParsed sys index o item × (c' ≡ add_node sys (node_tag index) item c)
      by_parse (err e) q k = ground arith
      by_parse (ok item) q k = elim (Bool-cases (contains c.tags (node_tag index))) [
        | inl e ↦ absurd (ground (arith, e, k))
        | inr e ↦ (
          item,
          record {
            node = node;
            there = there;
            parsed = ap (λ x. parse_uri sys.parse_url (uri_of x) (node_tag index)) (sym there) ∙ q;
          },
          sym (of_ok (rw e at k)),
        )
      ]

  module _ (tag : Text) (item : Map) (c : Chosen) where
    marks-snoc :
        map (fingerprint sys) (c.outbounds ++ (tagged tag item ∷ []))
        ≡ marks c ++ (fingerprint sys item ∷ [])
    marks-snoc =
        map-append (fingerprint sys) c.outbounds (tagged tag item)
        ∙ ap (λ m. marks c ++ (m ∷ [])) (fingerprint-tagged sys tag item)

    -- A mark that is there stays, and that of the item is there afterwards.
    add_node-marks :
        IsTracked c
        → (m : Text)
        → contains (marks (add_node sys tag item c)) m
          ≡ (contains (marks c) m || fingerprint sys item == m)
    unfolding add_node
    add_node-marks h m = elim (Bool-cases (contains c.seen (fingerprint sys item))) [
      | inl e ↦
          rw e (ground (arith, h (fingerprint sys item), e, text_beq_iff (fingerprint sys item) m))
      | inr e ↦
          rw e (
            ap (λ ms. contains ms m) marks-snoc
            ∙ contains-append (marks c) (fingerprint sys item) m)
    ]

    add_node-IsTracked : IsTracked c → IsTracked (add_node sys tag item c)
    unfolding add_node
    add_node-IsTracked h m = elim (Bool-cases (contains c.seen (fingerprint sys item))) [
      | inl e ↦ rw e (h m)
      | inr e ↦ rw e (
          ground (
            arith,
            h m,
            ap (λ ms. contains ms m) marks-snoc,
            contains-append (marks c) (fingerprint sys item) m,
          ))
    ]

    add_node-All :
        (P : Map → Type 0)
        → P (tagged tag item)
        → All P c.outbounds
        → All P (add_node sys tag item c).outbounds
    unfolding add_node
    add_node-All P p h = elim (Bool-cases (contains c.seen (fingerprint sys item))) [
      | inl e ↦ rw e h
      | inr e ↦ rw e (All-append P c.outbounds (tagged tag item ∷ []) h (p, tt))
    ]

  -- Every node that has been read is shown among the outbounds.
  choose_nodes-AreShown :
      (index : ℕ) (nodes : List (Option Node)) (c : Chosen) {c' : Chosen}
      → AreThere nodes
      → IsTracked c
      → choose_nodes sys index nodes c ≡ ok c'
      → ((m : Text) → contains (marks c) m ≡ true → contains (marks c') m ≡ true)
        × AreShown (marks c') index nodes
  unfolding choose_nodes
  choose_nodes-AreShown index [] c {c'} there h k =
      ((λ m e. subst (λ x. contains (marks x) m ≡ true) (of_ok k) e), tt)
    where
      of_ok : {a b : Chosen} → ◌≡◌ {A = Result ShadowError Chosen} (ok a) (ok b) → a ≡ b
      of_ok e = cc e
  choose_nodes-AreShown index (o ∷ os) c {c'} (here, there) h k =
      let (c₁, first, rest) =
        >>=-eq-ok (choose_node sys index o c) (λ x. choose_nodes sys (index + 1) os x) k in
      let (item, parsed, same) = choose_node-parsed index o c here first in
      let tag = node_tag index in
      let (grows, shown) =
        choose_nodes-AreShown (index + 1) os c₁ there
          (subst IsTracked (sym same) (add_node-IsTracked tag item c h)) rest in
      let grown =
        λ (m : Text). ap (λ x. contains (marks x) m) same ∙ add_node-marks tag item c h m in
      (
        (λ m e. grows m (ground (arith, grown m, e))),
        (
          record {
            item = item;
            parsed = parsed;
            shown = grows (fingerprint sys item) (
                ground (
                  arith,
                  grown (fingerprint sys item),
                  text_beq_iff (fingerprint sys item) (fingerprint sys item),
                ));
          },
          shown,
        ),
      )

  -- Every outbound is one from before the loop or that of a node.
  choose_nodes-All :
      (P : Map → Type 0) (index : ℕ) (nodes : List (Option Node)) (c : Chosen) {c' : Chosen}
      → AreThere nodes
      → ((x : Map) → IsFrom index nodes x → P x)
      → All P c.outbounds
      → choose_nodes sys index nodes c ≡ ok c'
      → All P c'.outbounds
  unfolding choose_nodes
  choose_nodes-All P index [] c {c'} there f h k =
      subst (λ (x : Chosen). All P x.outbounds) (of_ok k) h
    where
      of_ok : {a b : Chosen} → ◌≡◌ {A = Result ShadowError Chosen} (ok a) (ok b) → a ≡ b
      of_ok e = cc e
  choose_nodes-All P index (o ∷ os) c (here, there) f h k =
      let (c₁, first, rest) =
        >>=-eq-ok (choose_node sys index o c) (λ x. choose_nodes sys (index + 1) os x) k in
      let (item, parsed, same) = choose_node-parsed index o c here first in
      let tag = node_tag index in
      choose_nodes-All P (index + 1) os c₁ there (λ x p. f x (inr p))
        (subst (λ (x : Chosen). All P x.outbounds) (sym same)
          (add_node-All tag item c P
            (f (tagged tag item) (inl (record { item = item; parsed = parsed; same = refl }))) h))
        rest

  -- The outbounds are those of the nodes, each but for the tag once.
  pub record AreNodes (nodes : List (Option Node)) (outbounds : List Map) : Type 0 where
    pub sound : All (IsFrom 0 nodes) outbounds
    pub complete : AreShown (map (fingerprint sys) outbounds) 0 nodes

  pub choose_nodes-AreNodes :
      (tags : List Text) (nodes : List (Option Node)) {c : Chosen}
      → AreThere nodes
      → choose_nodes sys 0 nodes (start tags) ≡ ok c
      → AreNodes nodes c.outbounds
  choose_nodes-AreNodes tags nodes there k = record {
    sound = choose_nodes-All (IsFrom 0 nodes) 0 nodes (start tags) there (λ _ p. p) tt k;
    complete = (choose_nodes-AreShown 0 nodes (start tags) there (λ _. refl) k).1;
  }
