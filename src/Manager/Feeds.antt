-- ===== src/Manager/Feeds.antt =====
-- Where the nodes come from that `buildState` gathers.
use egress_router.Common.{
  ℕ, zero, suc, ◌+◌, true, Option, none, some, List, [], ◌∷◌, ◌≡◌, ◌⊎◌, inl, inr, refl, arith, Text,
  text_eq, contains, Result, ok, err,
}
use egress_router.Common.Json.{Map}
use egress_router.Node.{ParseUrl, parse_uri}
use egress_router.System.{World, Answer, no_answer, redirect, answer, request}
use egress_router.Feed.{decode_body}
use egress_router.Manager.Base.{IsWebOf, IsWebOf-trans}
use egress_router.Manager.Defs.{Platform, State, Subscription}
use egress_router.Manager.Names.{node_tag}
use egress_router.Manager.Fetch.{RedirectError, Response, follow, fetch, secure_redirect, scheme_of}

-- A line of the feed that the web gives for a subscription, parsed.
pub record IsFetched (sys : Platform) (w : World) (sub : Subscription) (item : Map) : Type 0 where
  pub fetched_in : World
  pub web : IsWebOf w fetched_in
  pub body : Text
  pub fetched : (fetch sys.parse_url sub.url fetched_in).1 ≡ some body
  pub line : Text
  pub listed : contains (decode_body body) line ≡ true
  pub index : ℕ
  pub parsed : parse_uri sys.parse_url line (node_tag sys.parse_url sub.name line index) ≡ ok item

-- The same for one of the subscriptions.
abbrev pub IsFed : Platform → World → State → Map → Type 0
IsFed sys w [] item = ⊥
IsFed sys w (sub ∷ subs) item = IsFetched sys w sub item ⊎ IsFed sys w subs item

pub IsFetched-earlier :
    {sys : Platform} (w w' : World) {sub : Subscription} {item : Map}
    → IsWebOf w w'
    → IsFetched sys w' sub item
    → IsFetched sys w sub item
IsFetched-earlier w w' l h = record {
  fetched_in = h.fetched_in;
  web = IsWebOf-trans w w' h.fetched_in l h.web;
  body = h.body;
  fetched = h.fetched;
  line = h.line;
  listed = h.listed;
  index = h.index;
  parsed = h.parsed;
}

pub IsFed-earlier :
    (sys : Platform) (w w' : World) (subs : State) (item : Map)
    → IsWebOf w w'
    → IsFed sys w' subs item
    → IsFed sys w subs item
IsFed-earlier sys w w' [] item l h = h
IsFed-earlier sys w w' (sub ∷ subs) item l (inl h) = inl (IsFetched-earlier w w' l h)
IsFed-earlier sys w w' (sub ∷ subs) item l (inr h) = inr (IsFed-earlier sys w w' subs item l h)

request-IsWebOf : (url : Text) (w : World) → IsWebOf w (request url w).0
unfolding request
request-IsWebOf url w = (refl, omega arith)

follow-IsWebOf :
    (parse_url : ParseUrl) (left via : ℕ) (url : Text) (w : World)
    → IsWebOf w (follow parse_url left via url w).0
unfolding follow
follow-IsWebOf parse_url zero via url w = (refl, omega arith)
follow-IsWebOf parse_url (suc left) via url w =
    step (λ location. follow-IsWebOf parse_url left (via + 1) location w') (request url w).1
  where
    w' : World
    w' = (request url w).0

    refused :
        (location : Text)
        → IsWebOf w' (follow parse_url left (via + 1) location w').0
        → (e : Result RedirectError (Unit {0}))
        → IsWebOf w
            (elim e as (λ _. World × Option Response × List Text) [
              | err _ ↦ (w', none, url ∷ [])
              | ok _ ↦
                  let (w'', r, sent) = follow parse_url left (via + 1) location w' in
                  (w'', r, url ∷ sent)
            ]).0
    refused location h (err _) = request-IsWebOf url w
    refused location h (ok _) =
        IsWebOf-trans w w' (follow parse_url left (via + 1) location w').0 (request-IsWebOf url w) h

    step :
        ((location : Text) → IsWebOf w' (follow parse_url left (via + 1) location w').0)
        → (a : Answer)
        → IsWebOf w
            (elim a as (λ _. World × Option Response × List Text) [
              | no_answer ↦ (w', none, url ∷ [])
              | answer status body whole ↦
                  (w', some (record { status = status; body = body; whole = whole }), url ∷ [])
              | redirect location ↦
                  elim (secure_redirect (scheme_of (parse_url location)) (via + 1))
                    as (λ _. World × Option Response × List Text) [
                      | err _ ↦ (w', none, url ∷ [])
                      | ok _ ↦
                          let (w'', r, sent) = follow parse_url left (via + 1) location w' in
                          (w'', r, url ∷ sent)
                    ]
            ]).0
    step h no_answer = request-IsWebOf url w
    step h (answer _ _ _) = request-IsWebOf url w
    step h (redirect location) =
        refused location (h location) (secure_redirect (scheme_of (parse_url location)) (via + 1))

pub fetch-IsWebOf :
    (parse_url : ParseUrl) (url : Text) (w : World) → IsWebOf w (fetch parse_url url w).0
unfolding fetch
fetch-IsWebOf parse_url url w = follow-IsWebOf parse_url 10 0 url w
