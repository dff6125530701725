-- ===== src/Manager/Fetch.antt =====
-- `fetch` of subscription-manager/main.go, with the redirects of its `http.Client`.
use egress_router.Common.{
  ℕ, zero, suc, ◌+◌, ◌*◌, Bool, true, false, ◌||◌, not, Option, none, some, List, [], ◌∷◌, Text,
  lit, ◌==◌, text_eq, if◌then◌else◌, leb, ltb, length, take, Result, ok, err,
}
use egress_router.Url.{Url}
use egress_router.Node.{ParseUrl}
use egress_router.System.{World, no_answer, redirect, answer, request}

pub data RedirectError : Type 0 where
  redirect_requires_https too_many_redirects : RedirectError

-- `secureRedirect`, with the scheme of the next request and the number of requests made so far
unfoldable pub secure_redirect : Text → ℕ → Result RedirectError (Unit {0})
secure_redirect scheme via =
    if not (scheme == lit "https")
    then err redirect_requires_https
    else if leb 10 via
    then err too_many_redirects
    else ok tt

abbrev pub scheme_of : Option Url → Text
scheme_of none = []
scheme_of (some url) = url.scheme

abbrev pub passes : {E A : Type 0} → Result E A → Bool
passes (ok _) = true
passes (err _) = false

-- A response: the status, the body and whether the body arrived whole.
pub record Response : Type 0 where
  pub status : ℕ
  pub body : Text
  pub whole : Bool

-- client.Do: `via` requests have been made, and the list holds the URLs requested, in their order. A
-- location that does not parse is an error; so is a redirect that `secureRedirect` refuses.
unfoldable pub follow : ParseUrl → ℕ → ℕ → Text → World → World × Option Response × List Text
follow parse_url zero via url w = (w, none, [])
follow parse_url (suc left) via url w =
    let (w', a) = request url w in
    elim a [
      | no_answer ↦ (w', none, url ∷ [])
      | answer status body whole ↦
          (w', some (record { status = status; body = body; whole = whole }), url ∷ [])
      | redirect location ↦ elim (secure_redirect (scheme_of (parse_url location)) (via + 1)) [
        | err _ ↦ (w', none, url ∷ [])
        | ok _ ↦
            let (w'', r, sent) = follow parse_url left (via + 1) location w' in (w'', r, url ∷ sent)
      ]
    ]

-- 16 MiB
abbrev pub body_limit : ℕ
body_limit = 16 * 1024 * 1024

-- The checks of `fetch` on a response; the reader stops one byte past the limit.
abbrev pub accept_response : Option Response → Option Text
accept_response none = none
accept_response (some r) =
    let body = take (body_limit + 1) r.body in
    if ltb r.status 200 || leb 300 r.status
    then none
    else if ltb body_limit (length body)
    then none
    else if r.whole
    then some body
    else none

-- `fetch`: `none` is any error. Ten requests are enough, since `secureRedirect` refuses an eleventh.
unfoldable pub fetch : ParseUrl → Text → World → World × Option Text
fetch parse_url url w = let (w', r, _) = follow parse_url 10 0 url w in (w', accept_response r)
