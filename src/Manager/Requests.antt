-- ===== src/Manager/Requests.antt =====
-- The requests that `fetch` sends, and the body that it returns.
use egress_router.Common.{
  ℕ, zero, suc, ◌+◌, ◌≤◌, Bool, ◌||◌, Option, none, some, List, [], ◌∷◌, ◌≡◌, ◌⊎◌, inl, inr, refl,
  ap, ◌∙◌, arith, Text, lit, text_eq, text_beq_iff, if◌then◌else◌, leb, ltb, length, take, All,
  Result, ok, err,
}
use egress_router.Node.{ParseUrl}
use egress_router.System.{World, Answer, no_answer, redirect, answer, request}
use egress_router.Manager.Fetch.{
  RedirectError, secure_redirect, scheme_of, Response, follow, body_limit, accept_response, fetch,
}

-- A URL that parses with the scheme https.
abbrev pub IsHttps : ParseUrl → Text → Type 0
IsHttps parse_url url = scheme_of (parse_url url) ≡ lit "https"

secure_redirect-ok :
    (scheme : Text) (via : ℕ) (u : Unit {0})
    → secure_redirect scheme via ≡ ok u
    → (scheme ≡ lit "https") × (via ≤ 9)
unfolding secure_redirect
secure_redirect-ok scheme via u h = ground (arith, text_beq_iff scheme (lit "https"))

abbrev Run : Type 0
Run = World × Option Response × List Text

-- One round of `follow` behind its request, with what a redirect leads to.
abbrev round : Text → World → ParseUrl → ℕ → (Text → Run) → Answer → Run
round url w parse_url via next a = elim a [
  | no_answer ↦ (w, none, url ∷ [])
  | answer status body whole ↦
      (w, some (record { status = status; body = body; whole = whole }), url ∷ [])
  | redirect location ↦ elim (secure_redirect (scheme_of (parse_url location)) (via + 1)) [
    | err _ ↦ (w, none, url ∷ [])
    | ok _ ↦ let (w'', r, sent) = next location in (w'', r, url ∷ sent)
  ]
]

-- Requests that `via` others precede: at most ten in all, and each but the first for an https URL.
abbrev pub AreSecure : ParseUrl → ℕ → List Text → Type 0
AreSecure parse_url via [] = Unit {0}
AreSecure parse_url via (url ∷ urls) =
    (length (url ∷ urls) + via ≤ 10) × All (IsHttps parse_url) urls

capped :
    (limit : ℕ) (refused whole : Bool) (t : Text) {body : Text}
    → (if refused
        then none
        else if ltb limit (length t)
        then none
        else if whole
        then some t
        else none)
      ≡ some body
    → length body ≤ limit
capped limit refused whole t h = ground arith

module _ (parse_url : ParseUrl) where
  -- The same, where the first URL is known to be https as well.
  abbrev Follows : ℕ → List Text → Type 0
  Follows via urls = (length urls + via ≤ 10) × All (IsHttps parse_url) urls

  joined :
      (via : ℕ) (location : Text) (sent : List Text)
      → via + 1 ≤ 9
      → IsHttps parse_url location
      → AreSecure parse_url (via + 1) sent
      → (sent ≡ []) ⊎ ((urls : List Text) × (sent ≡ location ∷ urls))
      → Follows (via + 1) sent
  joined via location [] n h s b = (omega arith, tt)
  joined via location (x ∷ xs) n h (l, s) (inl e) = ground arith
  joined via location (x ∷ xs) n h (l, s) (inr (urls, e)) = (l, (ground (arith, e, h), s))

  -- The first request is for the URL itself.
  follow_first :
      (left via : ℕ) (url : Text) (w : World)
      → ((follow parse_url left via url w).2 ≡ [])
        ⊎ ((urls : List Text) × ((follow parse_url left via url w).2 ≡ url ∷ urls))
  unfolding follow request
  follow_first zero via url w = inl refl
  follow_first (suc left) via url w = first (w.web w.calls url)
    where
      next : Text → Run
      next location = follow parse_url left (via + 1) location (request url w).0

      refused :
          (location : Text) (r : Result RedirectError (Unit {0}))
          → (urls : List Text) × ((elim r as (λ _. Run) [
            | err _ ↦ ((request url w).0, none, url ∷ [])
            | ok _ ↦ let (w'', r, sent) = next location in (w'', r, url ∷ sent)
          ]).2
              ≡ url ∷ urls)
      refused location (err _) = ([], refl)
      refused location (ok _) = ((next location).2, refl)

      first :
          (a : Answer)
          → ((round url (request url w).0 parse_url via next a).2 ≡ [])
            ⊎ ((urls : List Text) × ((round url (request url w).0 parse_url via next a).2
                  ≡ url ∷ urls))
      first no_answer = inr ([], refl)
      first (answer _ _ _) = inr ([], refl)
      first (redirect location) =
          inr (refused location (secure_redirect (scheme_of (parse_url location)) (via + 1)))

  follow-AreSecure :
      (left via : ℕ) (url : Text) (w : World)
      → via ≤ 9
      → AreSecure parse_url via (follow parse_url left via url w).2
  unfolding follow request
  follow-AreSecure zero via url w n = tt
  follow-AreSecure (suc left) via url w n =
      step (λ location m. follow-AreSecure left (via + 1) location (request url w).0 m)
        (w.web w.calls url)
    where
      next : Text → Run
      next location = follow parse_url left (via + 1) location (request url w).0

      refused :
          (location : Text)
          → (via + 1 ≤ 9 → AreSecure parse_url (via + 1) (next location).2)
          → (r : Result RedirectError (Unit {0}))
          → secure_redirect (scheme_of (parse_url location)) (via + 1) ≡ r
          → AreSecure parse_url via
              (elim r as (λ _. Run) [
                | err _ ↦ ((request url w).0, none, url ∷ [])
                | ok _ ↦ let (w'', r, sent) = next location in (w'', r, url ∷ sent)
              ]).2
      refused location ih (err _) q = (omega arith, tt)
      refused location ih (ok u) q =
          let (secure, few) = secure_redirect-ok (scheme_of (parse_url location)) (via + 1) u q in
          let (bound, s) =
            joined via location (next location).2 few secure (ih few)
              (follow_first left (via + 1) location (request url w).0) in
          (omega arith, s)

      step :
          ((location : Text) → via + 1 ≤ 9 → AreSecure parse_url (via + 1) (next location).2)
          → (a : Answer)
          → AreSecure parse_url via (round url (request url w).0 parse_url via next a).2
      step ih no_answer = (omega arith, tt)
      step ih (answer _ _ _) = (omega arith, tt)
      step ih (redirect location) =
          refused location (ih location)
            (secure_redirect (scheme_of (parse_url location)) (via + 1)) refl

  -- More rounds change nothing, since `secureRedirect` ends a run of requests.
  pub follow_enough :
      (left via k : ℕ) (url : Text) (w : World)
      → via ≤ 9
      → 10 ≤ left + via
      → follow parse_url (left + k) via url w ≡ follow parse_url left via url w
  unfolding follow request
  follow_enough zero via k url w n l = absurd (omega arith)
  follow_enough (suc left) via k url w n l =
      ap (λ rounds. follow parse_url rounds via url w) {x = suc left + k} {y = suc (left + k)}
        (omega arith)
      ∙ step
          (λ location m. follow_enough left (via + 1) k location (request url w).0 m (omega arith))
          (w.web w.calls url)
    where
      next : ℕ → Text → Run
      next rounds location = follow parse_url rounds (via + 1) location (request url w).0

      refused :
          (location : Text)
          → (via + 1 ≤ 9 → next (left + k) location ≡ next left location)
          → (r : Result RedirectError (Unit {0}))
          → secure_redirect (scheme_of (parse_url location)) (via + 1) ≡ r
          → elim r as (λ _. Run) [
            | err _ ↦ ((request url w).0, none, url ∷ [])
            | ok _ ↦ let (w'', r, sent) = next (left + k) location in (w'', r, url ∷ sent)
          ]
            ≡ elim r as (λ _. Run) [
              | err _ ↦ ((request url w).0, none, url ∷ [])
              | ok _ ↦ let (w'', r, sent) = next left location in (w'', r, url ∷ sent)
            ]
      refused location ih (err _) q = refl
      refused location ih (ok u) q =
          ap (λ (p : Run). (p.0, p.1, url ∷ p.2))
            (ih (secure_redirect-ok (scheme_of (parse_url location)) (via + 1) u q).1)

      step :
          ((location : Text) → via + 1 ≤ 9 → next (left + k) location ≡ next left location)
          → (a : Answer)
          → round url (request url w).0 parse_url via (next (left + k)) a
            ≡ round url (request url w).0 parse_url via (next left) a
      step ih no_answer = refl
      step ih (answer _ _ _) = refl
      step ih (redirect location) =
          refused location (ih location)
            (secure_redirect (scheme_of (parse_url location)) (via + 1)) refl

  -- However many rounds from ten on are allowed, a fetch sends at most ten requests, each but the
  -- first for a URL with the scheme https, and the outcome is the one of the ten rounds that
  -- `fetch` allows.
  pub follow_secure :
      (k : ℕ) (url : Text) (w : World)
      → AreSecure parse_url 0 (follow parse_url (10 + k) 0 url w).2
        × (follow parse_url (10 + k) 0 url w ≡ follow parse_url 10 0 url w)
  follow_secure k url w = (
    follow-AreSecure (10 + k) 0 url w (omega arith),
    follow_enough 10 0 k url w (omega arith) (omega arith),
  )

  -- A body that `fetch` returns has at most 16 MiB.
  pub fetch-length :
      (url : Text) (w : World) {body : Text}
      → (fetch parse_url url w).1 ≡ some body
      → length body ≤ body_limit
  unfolding fetch
  fetch-length url w h = accepted (follow parse_url 10 0 url w).1 h
    where
      accepted :
          (r : Option Response) {body : Text}
          → accept_response r ≡ some body
          → length body ≤ body_limit
      accepted none h = ground arith
      accepted (some r) h =
          capped body_limit (ltb r.status 200 || leb 300 r.status) r.whole
            (take (body_limit + 1) r.body) h
