-- ===== src/Shadow/Chosen.antt =====
-- What the loop over the nodes of a snapshot has chosen, and the tags of the candidate.
use mathlib.Core.Path.{subst}
use egress_router.Common.{
  ℕ, suc, ◌+◌, ◌≤◌, true, false, Option, List, [], ◌∷◌, ◌++◌, map, ◌≡◌, refl, sym, ap, ◌∙◌, arith,
  Text, text_eq, text_beq_iff, string_eq, String, length, contains, Distinct, All, All-append,
  All-imp, Result, ok, err, Bool-cases, inl, inr, if◌then◌else◌,
}
use egress_router.Common.Json.{str, Map, empty, entry, put, erase, get-put, erase-put}
use egress_router.Node.{parse_uri, NodeError}
use egress_router.Manager.Gather.{tag_of}
use egress_router.Manager.Gathered.{Has, absent, map-append, length-snoc, unknown, snoc}
use egress_router.Shadow.Defs.{
  Node, Platform, ShadowError, node_parse_failed, outbound_tag_collision,
}
use egress_router.Shadow.Candidate.{node_tag, uri_of, Chosen, start, add_node, choose_node}

abbrev pub fingerprint : Platform → Map → Text
fingerprint sys item = sys.marshal (erase "tag" item)

-- The generated tags are those of the outbounds; they differ from each other and from the tags of the
-- base config; and no two outbounds are equal but for the tag.
pub record IsChosen (sys : Platform) (base : List Text) (c : Chosen) : Type 0 where
  pub added : List Text
  pub known : c.tags ≡ added ++ base
  pub same : map tag_of c.outbounds ≡ c.generated
  pub listed : All (λ item. Has c.tags (tag_of item)) c.outbounds
  pub fresh : All (λ item. contains base (tag_of item) ≡ false) c.outbounds
  pub distinct : Distinct (map tag_of c.outbounds)
  pub seen : All (λ item. Has c.seen (fingerprint sys item)) c.outbounds
  pub once : Distinct (map (fingerprint sys) c.outbounds)
  pub counted : length c.seen ≡ length c.generated

erase-erase : (k : String) (m : Map) → erase k (erase k m) ≡ erase k m
unfolding erase
erase-erase k empty = refl
erase-erase k (entry j v m) = ground (arith, erase-erase k m)

-- The outbound of a node.
abbrev pub tagged : Text → Map → Map
tagged tag item = put "tag" (str tag) (erase "tag" item)

tag_of-tagged : (tag : Text) (item : Map) → tag_of (tagged tag item) ≡ tag
tag_of-tagged tag item = rw get-put refl

pub fingerprint-tagged :
    (sys : Platform) (tag : Text) (item : Map)
    → fingerprint sys (tagged tag item) ≡ sys.marshal (erase "tag" item)
fingerprint-tagged sys tag item =
    ap sys.marshal (erase-put "tag" "tag" (str tag) (erase "tag" item) ∙ erase-erase "tag" item)

pub start-IsChosen : (sys : Platform) (base : List Text) → IsChosen sys base (start base)
start-IsChosen sys base = record {
  added = [];
  known = refl;
  same = refl;
  listed = tt;
  fresh = tt;
  distinct = tt;
  seen = tt;
  once = tt;
  counted = refl;
}

module _ (sys : Platform) (base : List Text) (tag : Text) (item : Map) (c : Chosen)
    (h : IsChosen sys base c) (new : contains c.tags tag ≡ false) where
  abbrev outbound : Map
  outbound = tagged tag item

  listed : All (λ x. Has (tag ∷ c.tags) (tag_of x)) c.outbounds
  listed =
      All-imp (λ x. Has c.tags (tag_of x)) (λ x. Has (tag ∷ c.tags) (tag_of x))
        (λ x p. ground (arith, p)) c.outbounds h.listed

  not_in_base : contains base tag ≡ false
  not_in_base = unknown h.added base tag (subst (λ ts. contains ts tag ≡ false) h.known new)

  add_node_old :
      contains c.seen (sys.marshal (erase "tag" item)) ≡ true
      → IsChosen sys base (add_node sys tag item c)
  unfolding add_node
  add_node_old e = rw e (record {
    added = tag ∷ h.added;
    known = ap (λ ts. tag ∷ ts) h.known;
    same = h.same;
    listed = listed;
    fresh = h.fresh;
    distinct = h.distinct;
    seen = h.seen;
    once = h.once;
    counted = h.counted;
  })

  add_node_new :
      contains c.seen (sys.marshal (erase "tag" item)) ≡ false
      → IsChosen sys base (add_node sys tag item c)
  unfolding add_node
  add_node_new e =
      let t = tag_of-tagged tag item in
      let f = fingerprint-tagged sys tag item in
      let mark = sys.marshal (erase "tag" item) in
      rw e (record {
        added = tag ∷ h.added;
        known = ap (λ ts. tag ∷ ts) h.known;
        same =
            map-append tag_of c.outbounds outbound
            ∙ ap (λ ts. ts ++ (tag_of outbound ∷ [])) h.same
            ∙ ap (λ u. c.generated ++ (u ∷ [])) t;
        listed =
            All-append (λ x. Has (tag ∷ c.tags) (tag_of x)) c.outbounds (outbound ∷ []) listed
              (ground (arith, t, text_beq_iff tag (tag_of outbound)), tt);
        fresh =
            All-append (λ x. contains base (tag_of x) ≡ false) c.outbounds (outbound ∷ []) h.fresh
              (ap (contains base) t ∙ not_in_base, tt);
        distinct = snoc tag_of c.outbounds outbound h.distinct (
            absent tag_of c.tags c.outbounds (tag_of outbound) h.listed
              (ap (contains c.tags) t ∙ new));
        seen =
            All-append (λ x. Has (mark ∷ c.seen) (fingerprint sys x)) c.outbounds (outbound ∷ [])
              (All-imp (λ x. Has c.seen (fingerprint sys x))
                (λ x. Has (mark ∷ c.seen) (fingerprint sys x)) (λ x p. ground (arith, p))
                c.outbounds h.seen)
              (ground (arith, f, text_beq_iff mark (fingerprint sys outbound)), tt);
        once = snoc (fingerprint sys) c.outbounds outbound h.once (
            absent (fingerprint sys) c.seen c.outbounds (fingerprint sys outbound) h.seen
              (ap (contains c.seen) f ∙ e));
        counted = ap suc h.counted ∙ sym (length-snoc c.generated tag);
      })

  add_node-IsChosen : IsChosen sys base (add_node sys tag item c)
  add_node-IsChosen = elim (Bool-cases (contains c.seen (sys.marshal (erase "tag" item)))) [
    | inl e ↦ add_node_old e
    | inr e ↦ add_node_new e
  ]

-- One round adds one node at most, and there is a node after it.
pub record IsStep (sys : Platform) (base : List Text) (c c' : Chosen) : Type 0 where
  pub chosen : IsChosen sys base c'
  pub some_node : 1 ≤ length c'.generated
  pub kept : length c.generated ≤ length c'.generated
  pub one_node : length c'.generated ≤ length c.generated + 1

contains-length : (xs : List Text) (a : Text) → contains xs a ≡ true → 1 ≤ length xs
contains-length [] a h = ground arith
contains-length (x ∷ xs) a h = omega arith

module _ (sys : Platform) (base : List Text) where
  add_node-IsStep :
      (tag : Text) (item : Map) (c : Chosen)
      → IsChosen sys base c
      → contains c.tags tag ≡ false
      → IsStep sys base c (add_node sys tag item c)
  unfolding add_node
  add_node-IsStep tag item c h new =
      elim (Bool-cases (contains c.seen (sys.marshal (erase "tag" item)))) [
        | inl e ↦ record {
          chosen = add_node-IsChosen sys base tag item c h new;
          some_node =
              rw e (
                omega
                  (arith, h.counted, contains-length c.seen (sys.marshal (erase "tag" item)) e));
          kept = rw e (omega arith);
          one_node = rw e (omega arith);
        }
        | inr e ↦ record {
          chosen = add_node-IsChosen sys base tag item c h new;
          some_node = rw e (omega (arith, length-snoc c.generated tag));
          kept = rw e (omega (arith, length-snoc c.generated tag));
          one_node = rw e (omega (arith, length-snoc c.generated tag));
        }
      ]

  pub choose_node-IsStep :
      (index : ℕ) (node : Option Node) (c : Chosen) {c' : Chosen}
      → IsChosen sys base c
      → choose_node sys index node c ≡ ok c'
      → IsStep sys base c c'
  unfolding choose_node
  choose_node-IsStep index node c {c'} h =
      by_parse (parse_uri sys.parse_url (uri_of node) (node_tag index))
    where
      by_parse :
          (r : Result NodeError Map)
          → elim r as (λ _. Result ShadowError Chosen) [
            | err _ ↦ err node_parse_failed
            | ok item ↦
                if contains c.tags (node_tag index)
                then err outbound_tag_collision
                else ok (add_node sys (node_tag index) item c)
          ]
            ≡ ok c'
          → IsStep sys base c c'
      by_parse (err e) k = ground arith
      by_parse (ok item) k = elim (Bool-cases (contains c.tags (node_tag index))) [
        | inl e ↦ absurd (ground (arith, e, k))
        | inr e ↦
            subst (IsStep sys base c) (cc (rw e at k)) (add_node-IsStep (node_tag index) item c h e)
      ]
