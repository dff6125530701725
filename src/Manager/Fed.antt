-- ===== src/Manager/Fed.antt =====
-- The loops of `buildState` gather nodes of the feeds alone.
use egress_router.Common.{
  ℕ, zero, suc, ◌+◌, true, Option, none, some, List, [], ◌∷◌, ◌≡◌, inl, inr, refl, arith, Text,
  text_eq, text_beq_iff, if◌then◌else◌, contains, All, All-append, Result, ok, err, Bool-cases,
}
use mathlib.Core.Path.{subst}
use egress_router.Common.Json.{Map, erase}
use egress_router.Node.{NodeError, parse_uri}
use egress_router.System.{World}
use egress_router.Feed.{decode_body}
use egress_router.Manager.Defs.{
  Platform, State, UpdateError, empty_provider, no_parsed_nodes, tag_collision,
}
use egress_router.Manager.Names.{node_tag}
use egress_router.Manager.Gather.{Gathered, start, skip_node, add_node, gather_nodes}
use egress_router.Manager.Fetch.{fetch}
use egress_router.Manager.Build.{gather_body, gather_providers}
use egress_router.Manager.Providers.{ok-first, pair-first}
use egress_router.Manager.Feeds.{IsFed, IsFed-earlier, fetch-IsWebOf}

module _ (sys : Platform) (P : Map → Type 0) where
  add_node-All :
      (tag : Text) (item : Map) (g : Gathered)
      → P item
      → All P g.outbounds
      → All P (add_node sys tag item g).outbounds
  unfolding add_node
  add_node-All tag item g p h =
      elim (Bool-cases (contains g.seen (sys.marshal (erase "tag" item)))) [
        | inl e ↦ rw e h
        | inr e ↦ rw e (All-append P g.outbounds (item ∷ []) h (p, tt))
      ]

  gather_nodes-All :
      (name : Text) (provider : ℕ) (uris : List Text) (index parsed : ℕ) (g g' : Gathered) (n : ℕ)
      → ((line : Text) (i : ℕ) (item : Map)
          → contains uris line ≡ true
          → parse_uri sys.parse_url line (node_tag sys.parse_url name line i) ≡ ok item
          → P item)
      → All P g.outbounds
      → gather_nodes sys name provider uris index parsed g ≡ ok (g', n)
      → All P g'.outbounds
  unfolding gather_nodes skip_node
  gather_nodes-All name provider [] index parsed g g' n k h =
      λ e. subst (λ (x : Gathered). All P x.outbounds) (pair-first e) h
  gather_nodes-All name provider (raw ∷ uris) index parsed g g' n k h =
      step
        (λ i p x.
          gather_nodes-All name provider uris i p x g' n
            (λ line j item c. k line j item (ground (arith, c))))
        (parse_uri sys.parse_url raw tag) refl
    where
      tag : Text
      tag = node_tag sys.parse_url name raw index

      step :
          ((i p : ℕ) (x : Gathered)
            → All P x.outbounds
            → gather_nodes sys name provider uris i p x ≡ ok (g', n)
            → All P g'.outbounds)
          → (r : Result NodeError Map) → parse_uri sys.parse_url raw tag ≡ r
          → (elim r as (λ _. Result UpdateError (Gathered × ℕ)) [
            | err e ↦
                gather_nodes sys name provider uris
                  (index + 1)
                  parsed
                  (skip_node provider (index + 1) e g)
            | ok item ↦
                let rest =
                  gather_nodes sys name provider uris
                    (index + 1)
                    (parsed + 1)
                    (add_node sys tag item g) in
                if contains g.tags tag then err tag_collision else rest
          ])
            ≡ ok (g', n)
          → All P g'.outbounds
      step ih (err x) q f = ih (index + 1) parsed (skip_node provider (index + 1) x g) h f
      step ih (ok item) q f = elim (Bool-cases (contains g.tags tag)) [
        | inl c ↦ absurd (ground (arith, c, f))
        | inr c ↦
            ih (index + 1) (parsed + 1) (add_node sys tag item g)
              (add_node-All tag item g (k raw index item (ground (arith, text_beq_iff raw raw)) q)
                h)
              (rw c at f)
      ]

  gather_body-All :
      (name : Text) (provider : ℕ) (g g' : Gathered) (b : Option Text)
      → ((body line : Text) (i : ℕ) (item : Map)
          → b ≡ some body
          → contains (decode_body body) line ≡ true
          → parse_uri sys.parse_url line (node_tag sys.parse_url name line i) ≡ ok item
          → P item)
      → All P g.outbounds
      → gather_body sys name provider g b ≡ ok g'
      → All P g'.outbounds
  unfolding gather_body
  gather_body-All name provider g g' none k h = λ e. ground arith
  gather_body-All name provider g g' (some body) k h =
      lines (decode_body body) (λ line i item. k body line i item refl)
    where
      IsKept : List Text → Type 0
      IsKept ls =
          (line : Text) (i : ℕ) (item : Map)
          → contains ls line ≡ true
          → parse_uri sys.parse_url line (node_tag sys.parse_url name line i) ≡ ok item
          → P item

      counted :
          (uris : List Text)
          → IsKept uris
          → (r : Result UpdateError (Gathered × ℕ)) → gather_nodes sys name provider uris 0 0 g ≡ r
          → (elim r as (λ _. Result UpdateError Gathered) [
            | err e ↦ err e
            | ok (g', parsed) ↦ elim parsed as (λ _. Result UpdateError Gathered) [
              | zero ↦ err (no_parsed_nodes provider)
              | suc _ ↦ ok g'
            ]
          ])
            ≡ ok g'
          → All P g'.outbounds
      counted uris l (err x) q f = ground arith
      counted uris l (ok (x, zero)) q f = ground arith
      counted uris l (ok (x, suc n)) q f =
          gather_nodes-All name provider uris 0 0 g g' (suc n) l h (ground (arith, q, f))

      lines :
          (ls : List Text)
          → IsKept ls
          → (elim ls as (λ _. Result UpdateError Gathered) [
            | [] ↦ err (empty_provider provider)
            | uri ∷ uris ↦
                elim (gather_nodes sys name provider (uri ∷ uris) 0 0 g)
                  as (λ _. Result UpdateError Gathered) [
                    | err e ↦ err e
                    | ok (g', parsed) ↦ elim parsed as (λ _. Result UpdateError Gathered) [
                      | zero ↦ err (no_parsed_nodes provider)
                      | suc _ ↦ ok g'
                    ]
                  ]
          ])
            ≡ ok g'
          → All P g'.outbounds
      lines [] l f = ground arith
      lines (uri ∷ uris) l f =
          counted (uri ∷ uris) l (gather_nodes sys name provider (uri ∷ uris) 0 0 g) refl f

  gather_providers-All :
      (subs : State) (index : ℕ) (g : Gathered) (w : World) (g' : Gathered)
      → ((item : Map) → IsFed sys w subs item → P item)
      → All P g.outbounds
      → (gather_providers sys subs index g w).1 ≡ ok g'
      → All P g'.outbounds
  unfolding gather_providers
  gather_providers-All [] index g w g' k h =
      λ e. subst (λ (x : Gathered). All P x.outbounds) (ok-first e) h
  gather_providers-All (sub ∷ subs) index g w g' k h =
      step
        (λ x. gather_providers-All subs (index + 1) x w' g' (λ item f.
          k item
            (inr (IsFed-earlier sys w w' subs item (fetch-IsWebOf sys.parse_url sub.url w) f))))
        (gather_body sys sub.name (index + 1) g (fetch sys.parse_url sub.url w).1) refl
    where
      w' : World
      w' = (fetch sys.parse_url sub.url w).0

      step :
          ((x : Gathered)
            → All P x.outbounds
            → (gather_providers sys subs (index + 1) x w').1 ≡ ok g'
            → All P g'.outbounds)
          → (r : Result UpdateError Gathered)
          → gather_body sys sub.name (index + 1) g (fetch sys.parse_url sub.url w).1 ≡ r
          → (elim r as (λ _. World × Result UpdateError Gathered) [
            | err e ↦ (w', err e)
            | ok g' ↦ gather_providers sys subs (index + 1) g' w'
          ]).1
            ≡ ok g'
          → All P g'.outbounds
      step ih (err x) q f = ground arith
      step ih (ok x) q f =
          ih x
            (gather_body-All sub.name (index + 1) g x (fetch sys.parse_url sub.url w).1
              (λ body line i item e c p. k item (
                inl (record {
                  fetched_in = w;
                  web = (refl, omega arith);
                  body = body;
                  fetched = e;
                  line = line;
                  listed = c;
                  index = i;
                  parsed = p;
                })))
              h q)
            f

-- Every node that the loop over the providers gathers stands in the feed of a subscription.
pub gather_providers-AreFed :
    (sys : Platform) (state : State) (tags : List Text) (w : World) (g : Gathered)
    → (gather_providers sys state 0 (start tags) w).1 ≡ ok g
    → All (IsFed sys w state) g.outbounds
gather_providers-AreFed sys state tags w g h =
    gather_providers-All sys (IsFed sys w state) state 0 (start tags) w g (λ item f. f) tt h
