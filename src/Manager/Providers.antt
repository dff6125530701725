-- ===== src/Manager/Providers.antt =====
-- What the loops over the nodes and the providers keep of `IsGathered`.
use egress_router.Common.{
  ℕ, zero, suc, ◌+◌, Option, none, some, List, [], ◌∷◌, ◌≡◌, refl, arith, Text, text_eq,
  if◌then◌else◌, contains, Result, ok, err, Bool-cases, inl, inr,
}
use mathlib.Core.Path.{subst}
use egress_router.Common.Json.{Map}
use egress_router.Node.{NodeError, parse_uri}
use egress_router.Node.WellFormed.{parse_uri-IsNode}
use egress_router.System.{World}
use egress_router.Feed.{decode_body}
use egress_router.Manager.Defs.{
  Platform, State, UpdateError, empty_provider, no_parsed_nodes, tag_collision,
}
use egress_router.Manager.Names.{node_tag}
use egress_router.Manager.Gather.{Gathered, start, skip_node, add_node, gather_nodes}
use egress_router.Manager.Fetch.{fetch}
use egress_router.Manager.Build.{gather_body, gather_providers}
use egress_router.Manager.Gathered.{IsGathered, skip_node-IsGathered, add_node-IsGathered}

pub ok-first : {g g' : Gathered} → ◌≡◌ {A = Result UpdateError Gathered} (ok g) (ok g') → g ≡ g'
ok-first e = cc e

pub pair-first :
    {g g' : Gathered} {m n : ℕ}
    → ◌≡◌ {A = Result UpdateError (Gathered × ℕ)} (ok (g, m)) (ok (g', n))
    → g ≡ g'
pair-first e = ground (arith, e)

module _ (sys : Platform) (base : List Text) where
  gather_nodes-IsGathered :
      (name : Text) (provider : ℕ) (uris : List Text) (index parsed : ℕ) (g g' : Gathered) (n : ℕ)
      → IsGathered sys base g
      → gather_nodes sys name provider uris index parsed g ≡ ok (g', n)
      → IsGathered sys base g'
  unfolding gather_nodes
  gather_nodes-IsGathered name provider [] index parsed g g' n h =
      λ e. subst (IsGathered sys base) (pair-first e) h
  gather_nodes-IsGathered name provider (raw ∷ uris) index parsed g g' n h =
      step (λ i p x. gather_nodes-IsGathered name provider uris i p x g' n)
        (parse_uri sys.parse_url raw tag) refl
    where
      tag : Text
      tag = node_tag sys.parse_url name raw index

      step :
          ((i p : ℕ) (x : Gathered)
            → IsGathered sys base x
            → gather_nodes sys name provider uris i p x ≡ ok (g', n)
            → IsGathered sys base g')
          → (r : Result NodeError Map) → parse_uri sys.parse_url raw tag ≡ r
          → (elim r as (λ _. Result UpdateError (Gathered × ℕ)) [
            | err e ↦
                gather_nodes sys name provider uris
                  (index + 1)
                  parsed
                  (skip_node provider (index + 1) e g)
            | ok item ↦
                let rest =
                  gather_nodes sys name provider uris
                    (index + 1)
                    (parsed + 1)
                    (add_node sys tag item g) in
                if contains g.tags tag then err tag_collision else rest
          ])
            ≡ ok (g', n)
          → IsGathered sys base g'
      step ih (err x) q f =
          ih (index + 1) parsed (skip_node provider (index + 1) x g)
            (skip_node-IsGathered sys base provider (index + 1) x g h) f
      step ih (ok item) q f = elim (Bool-cases (contains g.tags tag)) [
        | inl c ↦ absurd (ground (arith, c, f))
        | inr c ↦
            ih (index + 1) (parsed + 1) (add_node sys tag item g)
              (add_node-IsGathered sys base tag item g (parse_uri-IsNode sys.parse_url raw tag q) c
                h)
              (rw c at f)
      ]

  gather_body-IsGathered :
      (name : Text) (provider : ℕ) (g g' : Gathered) (body : Option Text)
      → IsGathered sys base g
      → gather_body sys name provider g body ≡ ok g'
      → IsGathered sys base g'
  unfolding gather_body
  gather_body-IsGathered name provider g g' none h = λ e. ground arith
  gather_body-IsGathered name provider g g' (some body) h = lines (decode_body body)
    where
      counted :
          (uris : List Text) (r : Result UpdateError (Gathered × ℕ))
          → gather_nodes sys name provider uris 0 0 g ≡ r
          → (elim r as (λ _. Result UpdateError Gathered) [
            | err e ↦ err e
            | ok (g', parsed) ↦ elim parsed as (λ _. Result UpdateError Gathered) [
              | zero ↦ err (no_parsed_nodes provider)
              | suc _ ↦ ok g'
            ]
          ])
            ≡ ok g'
          → IsGathered sys base g'
      counted uris (err x) q f = ground arith
      counted uris (ok (x, zero)) q f = ground arith
      counted uris (ok (x, suc n)) q f =
          gather_nodes-IsGathered name provider uris 0 0 g g' (suc n) h (ground (arith, q, f))

      lines :
          (ls : List Text)
          → (elim ls as (λ _. Result UpdateError Gathered) [
            | [] ↦ err (empty_provider provider)
            | uri ∷ uris ↦
                elim (gather_nodes sys name provider (uri ∷ uris) 0 0 g)
                  as (λ _. Result UpdateError Gathered) [
                    | err e ↦ err e
                    | ok (g', parsed) ↦ elim parsed as (λ _. Result UpdateError Gathered) [
                      | zero ↦ err (no_parsed_nodes provider)
                      | suc _ ↦ ok g'
                    ]
                  ]
          ])
            ≡ ok g'
          → IsGathered sys base g'
      lines [] f = ground arith
      lines (uri ∷ uris) f =
          counted (uri ∷ uris) (gather_nodes sys name provider (uri ∷ uris) 0 0 g) refl f

  gather_providers_lem :
      (subs : State) (index : ℕ) (g : Gathered) (w : World) (g' : Gathered)
      → IsGathered sys base g
      → (gather_providers sys subs index g w).1 ≡ ok g'
      → IsGathered sys base g'
  unfolding gather_providers
  gather_providers_lem [] index g w g' h = λ e. subst (IsGathered sys base) (ok-first e) h
  gather_providers_lem (sub ∷ subs) index g w g' h =
      step (λ x. gather_providers_lem subs (index + 1) x w' g')
        (gather_body sys sub.name (index + 1) g (fetch sys.parse_url sub.url w).1) refl
    where
      w' : World
      w' = (fetch sys.parse_url sub.url w).0

      step :
          ((x : Gathered)
            → IsGathered sys base x
            → (gather_providers sys subs (index + 1) x w').1 ≡ ok g'
            → IsGathered sys base g')
          → (r : Result UpdateError Gathered)
          → gather_body sys sub.name (index + 1) g (fetch sys.parse_url sub.url w).1 ≡ r
          → (elim r as (λ _. World × Result UpdateError Gathered) [
            | err e ↦ (w', err e)
            | ok g' ↦ gather_providers sys subs (index + 1) g' w'
          ]).1
            ≡ ok g'
          → IsGathered sys base g'
      step ih (err x) q f = ground arith
      step ih (ok x) q f =
          ih x
            (gather_body-IsGathered sub.name (index + 1) g x (fetch sys.parse_url sub.url w).1 h q)
            f

start-IsGathered : (sys : Platform) (base : List Text) → IsGathered sys base (start base)
start-IsGathered sys base = record {
  added = [];
  known = refl;
  listed = tt;
  fresh = tt;
  distinct = tt;
  seen = tt;
  once = tt;
  nodes = tt;
  few = omega arith;
}

-- Whatever the providers send, a loop over them that ends without an error has gathered
-- well-formed nodes, with distinct tags that are not among those of the base config, no two with
-- the same JSON text behind the tag, and at most 20 warnings.
pub gather_providers-IsGathered :
    (sys : Platform) (state : State) (base : List Text) (w : World) (g : Gathered)
    → (gather_providers sys state 0 (start base) w).1 ≡ ok g
    → IsGathered sys base g
gather_providers-IsGathered sys state base w g h =
    gather_providers_lem sys base state 0 (start base) w g (start-IsGathered sys base) h
