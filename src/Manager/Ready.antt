-- ===== src/Manager/Ready.antt =====
-- Readiness and the output: what status 200 of /health says of the file.
use egress_router.Common.{
  ◌&&◌, ◌||◌, Bool-cases, Option, none, some, ◌≡◌, ◌≢◌, ◌⊎◌, inl, inr, refl, sym, ◌∙◌, arith, lit,
  Result, ok, err, text_eq, ◌==◌,
}
use mathlib.Core.Path.{subst}
use egress_router.Manager.Defs.{Subscription, Platform, Config, UpdateError, Report}
use egress_router.Manager.Writing.{IsPlain}
use egress_router.Manager.Transaction.{read_state-Kept}
use egress_router.Manager.Update.{Health, transaction, record_health, Service, update}
use egress_router.Manager.Service.{update_failed}
use egress_router.Manager.Handler.{
  DecodeRequest, Request, Message, error_reply, reply, HttpReply, health_of, checked, updated, post,
  handler, get_subscriptions,
}
use egress_router.Manager.Loop.{
  Loop, Step, request, build, send, expire, fail, interrupted, stopped, refreshed, ticked, Reach,
  here, next,
}
use egress_router.Manager.Served.{IsServed, served, service_of}

module _ (sys : Platform) (cfg : Config) (decode : DecodeRequest) where
  -- No update has succeeded, or the output is one that the service has written.
  record IsReadySafe (s : Service) : Type 0 where
    safe : (s.health.last_success ≡ none) ⊎ IsServed sys cfg decode s.world

  with_output :
      (s s' : Service)
      → s'.health.last_success ≡ s.health.last_success
      → s'.world.files cfg.output ≡ s.world.files cfg.output
      → IsReadySafe s
      → IsReadySafe s'
  with_output s s' e f h = record { safe = step h.safe }
    where
      step :
          (s.health.last_success ≡ none) ⊎ IsServed sys cfg decode s.world
          → (s'.health.last_success ≡ none) ⊎ IsServed sys cfg decode s'.world
      step (inl n) = inl (e ∙ n)
      step (inr v) = inr (record {
        config = v.config;
        published = f ∙ v.published;
        valid = v.valid;
        unique = v.unique;
      })

  update-last_success :
      (add : Option Subscription) (s : Service) {e : UpdateError}
      → (update sys cfg add s).1 ≡ err e
      → (update sys cfg add s).0.health.last_success ≡ s.health.last_success
  unfolding update record_health
  update-last_success add s h = step (transaction sys cfg add s.world).1 h
    where
      step :
          (r : Result UpdateError Report) {e : UpdateError}
          → r ≡ err e
          → (record_health
              (transaction sys cfg add s.world).0.calls
              r
              (record s.health { last_attempt = some s.world.calls })).last_success
            ≡ s.health.last_success
      step (ok _) q = ground arith
      step (err _) q = refl

  module _ (out : IsPlain cfg.output) (st : IsPlain cfg.state)
      (apart : cfg.output ≢ cfg.state) where
    update-IsReadySafe :
        (add : Option Subscription) (s : Service)
        → IsReadySafe s
        → IsReadySafe (update sys cfg add s).0
    update-IsReadySafe add s k = step (update sys cfg add s).1 refl
      where
        step :
            (x : Result UpdateError Report)
            → (update sys cfg add s).1 ≡ x
            → IsReadySafe (update sys cfg add s).0
        step (err e) h =
            with_output s (update sys cfg add s).0 (update-last_success add s h)
              (update_failed sys cfg add s out apart h) k
        step (ok rep) h = record { safe = inr (served sys cfg decode out st apart add s h) }

    post-IsReadySafe :
        (r : Request) (s : Service) → IsReadySafe s → IsReadySafe (post sys cfg decode r s).0
    unfolding post
    post-IsReadySafe r s k = step (checked sys decode r)
      where
        step :
            (x : Result Message (Option Subscription))
            → IsReadySafe
                (elim x as (λ _. Service × HttpReply) [
                  | err message ↦ (s, reply 400 (error_reply message))
                  | ok add ↦ let (s', result) = update sys cfg add s in (s', updated result)
                ]).0
        step (err message) = k
        step (ok add) = update-IsReadySafe add s k

    handler-IsReadySafe :
        (r : Request) (s : Service) → IsReadySafe s → IsReadySafe (handler sys cfg decode r s).0
    unfolding handler get_subscriptions
    handler-IsReadySafe r s k =
        elim (Bool-cases (r.method == lit "GET" && r.path == lit "/health")) [
          | inl a ↦ rw a k
          | inr a ↦ elim (Bool-cases (r.method == lit "GET" && r.path == lit "/subscriptions")) [
            | inl b ↦
                rw (a, b)
                  (with_output s (get_subscriptions sys cfg s).0 refl
                    (read_state-Kept sys cfg.state cfg.output s.world) k)
            | inr b ↦
                elim (Bool-cases (
                  r.method == lit "POST"
                  && (r.path == lit "/subscriptions" || r.path == lit "/refresh"))) [
                    | inl c ↦ rw (a, b, c) (post-IsReadySafe r s k)
                    | inr c ↦ rw (a, b, c) k
                  ]
          ]
        ]

    same_service :
        (l l' : Loop) → l'.service ≡ l.service → IsReadySafe l.service → IsReadySafe l'.service
    same_service l l' e k = subst IsReadySafe (sym e) k

    Step-IsReadySafe :
        {l l' : Loop} → Step sys cfg decode l l' → IsReadySafe l.service → IsReadySafe l'.service
    Step-IsReadySafe {l} (request r e) k =
        subst IsReadySafe (sym (service_of e)) (handler-IsReadySafe r l.service k)
    Step-IsReadySafe {l} (build p e) k =
        subst IsReadySafe (sym (service_of e)) (update-IsReadySafe none l.service k)
    Step-IsReadySafe {l} {l'} (send p q e) k = same_service l l' (service_of e) k
    Step-IsReadySafe {l} {l'} (expire t e) k = same_service l l' (service_of e) k
    Step-IsReadySafe {l} {l'} (fail e) k = same_service l l' (service_of e) k
    Step-IsReadySafe {l} {l'} (interrupted a e) k = same_service l l' (service_of e) k
    Step-IsReadySafe {l} {l'} (stopped a b e) k = same_service l l' (service_of e) k
    Step-IsReadySafe {l} {l'} (refreshed a p e) k = same_service l l' (service_of e) k
    Step-IsReadySafe {l} {l'} (ticked a t e) k = same_service l l' (service_of e) k

    reached :
        {l l' : Loop} → Reach sys cfg decode l l' → IsReadySafe l.service → IsReadySafe l'.service
    reached here k = k
    reached (next r s) k = Step-IsReadySafe s (reached r k)

    ready : (h : Health) → (health_of h).status ≡ 200 → h.last_success ≢ none
    unfolding health_of
    ready h q e = ground (arith, q, e)

    -- In every state that the steps of the service lead to from one in which no update has
    -- succeeded, whatever fails: if the health is answered with status 200, the output is a config
    -- that sing-box accepts, in mode 0640, in which no tag but the empty one occurs twice; the
    -- output and the state are two different paths that are no temporary files.
    pub Reach-IsReady :
        {l l' : Loop}
        → Reach sys cfg decode l l'
        → l.service.health.last_success ≡ none
        → (health_of l'.service.health).status ≡ 200
        → IsServed sys cfg decode l'.service.world
    Reach-IsReady {l} {l'} r n q = decide (reached r (record { safe = inl n })).safe
      where
        decide :
            (l'.service.health.last_success ≡ none) ⊎ IsServed sys cfg decode l'.service.world
            → IsServed sys cfg decode l'.service.world
        decide (inl e) = absurd (ready l'.service.health q e)
        decide (inr v) = v
