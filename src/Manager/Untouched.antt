-- ===== src/Manager/Untouched.antt =====
-- The first steps of `buildState` change no file: the requests, and the read of the base config.
use egress_router.Common.{
  ℕ, zero, suc, ◌+◌, Option, none, some, List, [], ◌∷◌, ◌≡◌, refl, ◌∙◌, Text, Result, ok, err,
}
use egress_router.Node.{ParseUrl}
use egress_router.System.{World, Answer, no_answer, redirect, answer, request}
use egress_router.System.Frame.{Kept, read_file-Kept}
use egress_router.Manager.Defs.{State, Platform, Config, UpdateError}
use egress_router.Manager.Fetch.{RedirectError, Response, follow, fetch, secure_redirect, scheme_of}
use egress_router.Manager.Gather.{Gathered}
use egress_router.Manager.Build.{gather_body, gather_providers, read_base}

follow-Kept :
    (r : Text) (parse_url : ParseUrl) (left via : ℕ) (url : Text) (w : World)
    → (follow parse_url left via url w).0.files r ≡ w.files r
unfolding follow request
follow-Kept r parse_url zero via url w = refl
follow-Kept r parse_url (suc left) via url w =
    step (λ location. follow-Kept r parse_url left (via + 1) location w') (w.web w.calls url)
  where
    w' : World
    w' = (request url w).0

    refused :
        (location : Text)
        → (follow parse_url left (via + 1) location w').0.files r ≡ w.files r
        → (e : Result RedirectError (Unit {0}))
        → (elim e as (λ _. World × Option Response × List Text) [
          | err _ ↦ (w', none, url ∷ [])
          | ok _ ↦
              let (w'', r, sent) = follow parse_url left (via + 1) location w' in
              (w'', r, url ∷ sent)
        ]).0.files
            r
          ≡ w.files r
    refused location h (err _) = refl
    refused location h (ok _) = h

    step :
        ((location : Text) → (follow parse_url left (via + 1) location w').0.files r ≡ w.files r)
        → (a : Answer)
        → (elim a as (λ _. World × Option Response × List Text) [
          | no_answer ↦ (w', none, url ∷ [])
          | answer status body whole ↦
              (w', some (record { status = status; body = body; whole = whole }), url ∷ [])
          | redirect location ↦
              elim (secure_redirect (scheme_of (parse_url location)) (via + 1))
                as (λ _. World × Option Response × List Text) [
                  | err _ ↦ (w', none, url ∷ [])
                  | ok _ ↦
                      let (w'', r, sent) = follow parse_url left (via + 1) location w' in
                      (w'', r, url ∷ sent)
                ]
        ]).0.files
            r
          ≡ w.files r
    step h no_answer = refl
    step h (answer _ _ _) = refl
    step h (redirect location) =
        refused location (h location) (secure_redirect (scheme_of (parse_url location)) (via + 1))

pub gather_providers-Kept :
    (r : Text) (sys : Platform) (subs : State) (index : ℕ) (g : Gathered)
    → Kept r (gather_providers sys subs index g)
unfolding gather_providers fetch
gather_providers-Kept r sys [] index g w = refl
gather_providers-Kept r sys (sub ∷ subs) index g w =
    step (λ g'. gather_providers-Kept r sys subs (index + 1) g' (fetch sys.parse_url sub.url w).0)
      (gather_body sys sub.name (index + 1) g (fetch sys.parse_url sub.url w).1)
  where
    w' : World
    w' = (fetch sys.parse_url sub.url w).0

    step :
        ((g' : Gathered) → (gather_providers sys subs (index + 1) g' w').0.files r ≡ w'.files r)
        → (x : Result UpdateError Gathered)
        → (elim x as (λ _. World × Result UpdateError Gathered) [
          | err e ↦ (w', err e)
          | ok g' ↦ gather_providers sys subs (index + 1) g' w'
        ]).0.files
            r
          ≡ w.files r
    step h (err e) = follow-Kept r sys.parse_url 10 0 sub.url w
    step h (ok g') = h g' ∙ follow-Kept r sys.parse_url 10 0 sub.url w

pub read_base-Kept : (r : Text) (sys : Platform) (cfg : Config) → Kept r (read_base sys cfg)
unfolding read_base
read_base-Kept r sys cfg w = read_file-Kept r cfg.base w
