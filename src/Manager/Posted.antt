-- ===== src/Manager/Posted.antt =====
-- A subscription that is posted.
use egress_router.Common.{
  Bool, true, false, Option, none, some, [], ◌≡◌, ◌≢◌, refl, sym, ap, ◌∙◌, arith, lit, Result, ok,
  err, text_eq, text_beq, text_beq_iff,
}
use mathlib.Core.Path.{subst}
use egress_router.Manager.Defs.{Subscription, Platform, Config, UpdateError, Report}
use egress_router.Manager.Update.{Service, update}
use egress_router.Manager.Handler.{
  DecodeRequest, Request, Message, error_reply, HttpReply, reply, is_https, checked_payload,
  checked, updated, post, handler,
}

-- A request that adds a subscription and is answered with status 200: it has a name and an https URL
-- with a host, and the update with it succeeded.
pub record IsAdded (sys : Platform) (cfg : Config) (s s' : Service) (payload : Subscription)
    : Type 0 where
  pub named : payload.name ≢ []
  pub secure : is_https (sys.parse_url payload.url) ≡ true
  pub rep : Report
  pub updates : update sys cfg (some payload) s ≡ (s', ok rep)

some-injective : {x y : Subscription} → ◌≡◌ {A = Option Subscription} (some x) (some y) → x ≡ y
some-injective e = cc e

literals :
    (text_beq (lit "POST") (lit "GET") ≡ false)
    × (text_beq (lit "POST") (lit "POST") ≡ true)
    × (text_beq (lit "/subscriptions") (lit "/subscriptions") ≡ true)
unfolding lit text_beq
literals = (refl, refl, refl)

-- What a POST of a subscription was checked for.
record IsChecked (sys : Platform) (add : Option Subscription) : Type 0 where
  payload : Subscription
  known : add ≡ some payload
  named : payload.name ≢ []
  secure : is_https (sys.parse_url payload.url) ≡ true

checked_payload-IsChecked :
    (sys : Platform) (o : Option (Subscription × Bool)) {add : Option Subscription}
    → checked_payload sys o ≡ ok add
    → IsChecked sys add
checked_payload-IsChecked sys none h = ground arith
checked_payload-IsChecked sys (some (payload, false)) h = ground arith
checked_payload-IsChecked sys (some (payload, true)) h = record {
  payload = payload;
  known = ground arith;
  named = λ e. ground (arith, e, text_beq_iff payload.name []);
  secure = ground arith;
}

module _ (sys : Platform) (cfg : Config) (decode : DecodeRequest) (r : Request) (s : Service) where
  checked-IsChecked :
      {add : Option Subscription}
      → r.path ≡ lit "/subscriptions"
      → checked sys decode r ≡ ok add
      → IsChecked sys add
  unfolding checked
  checked-IsChecked e h =
      checked_payload-IsChecked sys (decode r.body)
        (ground (arith, text_beq_iff r.path (lit "/subscriptions")))

  post-IsAdded :
      r.path ≡ lit "/subscriptions"
      → (post sys cfg decode r s).1.status ≡ 200
      → (payload : Subscription) × IsAdded sys cfg s (post sys cfg decode r s).0 payload
  unfolding post
  post-IsAdded f = step (checked sys decode r) refl
    where
      added :
          (payload : Subscription)
          → payload.name ≢ []
          → is_https (sys.parse_url payload.url) ≡ true
          → (x : Service × Result UpdateError Report) → update sys cfg (some payload) s ≡ x
          → (updated x.1).status ≡ 200
          → IsAdded sys cfg s x.0 payload
      added payload n t (s', ok rep) q h = record { named = n; secure = t; rep = rep; updates = q }
      added payload n t (s', err e) q h = ground arith

      run : Result Message (Option Subscription) → Service × HttpReply
      run x = elim x [
        | err message ↦ (s, reply 400 (error_reply message))
        | ok add ↦ let (s', result) = update sys cfg add s in (s', updated result)
      ]

      step :
          (x : Result Message (Option Subscription))
          → checked sys decode r ≡ x
          → (run x).1.status ≡ 200
          → (payload : Subscription) × IsAdded sys cfg s (run x).0 payload
      step (err message) q h = ground arith
      step (ok none) q h = let c = checked-IsChecked f q in ground (arith, c.known)
      step (ok (some add)) q h =
          let c = checked-IsChecked f q in
          (
            add,
            added add
                (λ e.
                  c.named (ap (λ (x : Subscription). x.name) (some-injective (sym c.known)) ∙ e))
                (rw (some-injective c.known) c.secure) (update sys cfg (some add) s) refl h,
          )

  handler-post :
      r.method ≡ lit "POST"
      → r.path ≡ lit "/subscriptions"
      → handler sys cfg decode r s ≡ post sys cfg decode r s
  unfolding handler
  handler-post e f =
      let (post_get, post_post, path_path) = literals in
      rw
        (
          ap (λ m. text_beq m (lit "GET")) e ∙ post_get,
          ap (λ m. text_beq m (lit "POST")) e ∙ post_post,
          ap (λ p. text_beq p (lit "/subscriptions")) f ∙ path_path,
        )
        refl

  -- A POST to /subscriptions that is answered with status 200 had a subscription with a name and
  -- an https URL with a host, and the update with that subscription succeeded.
  pub handler-IsAdded :
      r.method ≡ lit "POST"
      → r.path ≡ lit "/subscriptions"
      → (handler sys cfg decode r s).1.status ≡ 200
      → (payload : Subscription) × IsAdded sys cfg s (handler sys cfg decode r s).0 payload
  handler-IsAdded e f h =
      subst (λ (x : Service × HttpReply). (payload : Subscription) × IsAdded sys cfg s x.0 payload)
        (sym (handler-post e f))
        (post-IsAdded f (sym (ap (λ (x : Service × HttpReply). x.1.status) (handler-post e f)) ∙ h))
