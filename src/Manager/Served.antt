-- ===== src/Manager/Served.antt =====
-- The output in every state that `run` can reach.
use egress_router.Common.{
  ◌&&◌, ◌||◌, Bool-cases, true, Option, none, some, ◌≡◌, ◌≢◌, ◌⊎◌, inl, inr, refl, sym, ap, ◌∙◌,
  lit, Result, ok, err, text_eq, ◌==◌,
}
use mathlib.Core.Path.{subst}
use egress_router.Common.Json.{Map}
use egress_router.System.{World}
use egress_router.Manager.Defs.{Subscription, Platform, Config, UpdateError, Report}
use egress_router.Manager.Writing.{IsPlain}
use egress_router.Manager.Build.{config_text}
use egress_router.Manager.Gather.{splice}
use egress_router.Manager.Committed.{output_file}
use egress_router.Manager.Tags.{outbounds_of, tags_of, AreUnique, splice-AreUnique}
use egress_router.Manager.Transaction.{read_state-Kept}
use egress_router.Manager.Update.{Service, update}
use egress_router.Manager.Service.{update_failed, update-IsUpdated}
use egress_router.Manager.Handler.{
  DecodeRequest, Request, Message, error_reply, reply, HttpReply, checked, updated, post, handler,
  get_subscriptions,
}
use egress_router.Manager.Loop.{
  Loop, Step, request, build, send, expire, fail, interrupted, stopped, refreshed, ticked, Reach,
  here, next,
}

pub service_of : {l l' : Loop} → l ≡ l' → l.service ≡ l'.service
service_of e = ap (λ (l : Loop). l.service) e

module _ (sys : Platform) (cfg : Config) (decode : DecodeRequest) where
  -- An output that the service has written: a config that sing-box accepts, without a tag that
  -- occurs twice, in mode 0640.
  pub record IsServed (w : World) : Type 0 where
    pub config : Map
    pub published : w.files cfg.output ≡ some (output_file (config_text sys config))
    pub valid : sys.accepts (config_text sys config) ≡ true
    pub unique : AreUnique (tags_of (outbounds_of config))

  abbrev pub IsSafe : World → World → Type 0
  IsSafe w w' = (w'.files cfg.output ≡ w.files cfg.output) ⊎ IsServed w'

  -- The same over states of the program.
  record IsSafeStep (l l' : Loop) : Type 0 where
    safe : IsSafe l.service.world l'.service.world

  IsSafe-trans : {l m n : Loop} → IsSafeStep l m → IsSafeStep m n → IsSafeStep l n
  IsSafe-trans {l} {m} {n} a b = record { safe = step a.safe b.safe }
    where
      step :
          IsSafe l.service.world m.service.world
          → IsSafe m.service.world n.service.world
          → IsSafe l.service.world n.service.world
      step (inl e) (inl f) = inl (f ∙ e)
      step (inr s) (inl f) = inr (record {
        config = s.config;
        published = f ∙ s.published;
        valid = s.valid;
        unique = s.unique;
      })
      step _ (inr s) = inr s

  by_service :
      (l l' : Loop) (s : Service)
      → l'.service ≡ s
      → IsSafe l.service.world s.world
      → IsSafeStep l l'
  by_service l l' s e h = record {
    safe = subst (λ (t : Service). IsSafe l.service.world t.world) (sym e) h;
  }

  same_service : (l l' : Loop) → l'.service ≡ l.service → IsSafeStep l l'
  same_service l l' e = by_service l l' l.service e (inl refl)

  module _ (out : IsPlain cfg.output) (st : IsPlain cfg.state)
      (apart : cfg.output ≢ cfg.state) where
    pub served :
        (add : Option Subscription) (s : Service) {rep : Report}
        → (update sys cfg add s).1 ≡ ok rep
        → IsServed (update sys cfg add s).0.world
    served add s h =
        let b = (update-IsUpdated sys cfg add s out st apart h).built in
        record {
          config = splice b.base b.values b.gathered.outbounds;
          published = b.files.published;
          valid = b.files.valid;
          unique = splice-AreUnique sys b.base b.values b.tags b.gathered b.unique b.sound;
        }

    pub update-IsSafe :
        (add : Option Subscription) (s : Service) → IsSafe s.world (update sys cfg add s).0.world
    update-IsSafe add s = step (update sys cfg add s).1 refl
      where
        step :
            (x : Result UpdateError Report)
            → (update sys cfg add s).1 ≡ x
            → IsSafe s.world (update sys cfg add s).0.world
        step (err e) h = inl (update_failed sys cfg add s out apart h)
        step (ok rep) h = inr (served add s h)

    post-IsSafe : (r : Request) (s : Service) → IsSafe s.world (post sys cfg decode r s).0.world
    unfolding post
    post-IsSafe r s = step (checked sys decode r)
      where
        step :
            (x : Result Message (Option Subscription))
            → IsSafe s.world
                (elim x as (λ _. Service × HttpReply) [
                  | err message ↦ (s, reply 400 (error_reply message))
                  | ok add ↦ let (s', result) = update sys cfg add s in (s', updated result)
                ]).0.world
        step (err message) = inl refl
        step (ok add) = update-IsSafe add s

    handler-IsSafe :
        (r : Request) (s : Service) → IsSafe s.world (handler sys cfg decode r s).0.world
    unfolding handler get_subscriptions
    handler-IsSafe r s = elim (Bool-cases (r.method == lit "GET" && r.path == lit "/health")) [
      | inl a ↦ rw a (inl refl)
      | inr a ↦ elim (Bool-cases (r.method == lit "GET" && r.path == lit "/subscriptions")) [
        | inl b ↦ rw (a, b) (inl (read_state-Kept sys cfg.state cfg.output s.world))
        | inr b ↦
            elim (Bool-cases (
              r.method == lit "POST"
              && (r.path == lit "/subscriptions" || r.path == lit "/refresh"))) [
                | inl c ↦ rw (a, b, c) (post-IsSafe r s)
                | inr c ↦ rw (a, b, c) (inl refl)
              ]
      ]
    ]

    Step-IsSafe : {l l' : Loop} → Step sys cfg decode l l' → IsSafeStep l l'
    Step-IsSafe {l} {l'} (request r e) =
        by_service l l' (handler sys cfg decode r l.service).0 (service_of e)
          (handler-IsSafe r l.service)
    Step-IsSafe {l} {l'} (build p e) =
        by_service l l' (update sys cfg none l.service).0 (service_of e)
          (update-IsSafe none l.service)
    Step-IsSafe {l} {l'} (send p q e) = same_service l l' (service_of e)
    Step-IsSafe {l} {l'} (expire t e) = same_service l l' (service_of e)
    Step-IsSafe {l} {l'} (fail e) = same_service l l' (service_of e)
    Step-IsSafe {l} {l'} (interrupted a e) = same_service l l' (service_of e)
    Step-IsSafe {l} {l'} (stopped a b e) = same_service l l' (service_of e)
    Step-IsSafe {l} {l'} (refreshed a p e) = same_service l l' (service_of e)
    Step-IsSafe {l} {l'} (ticked a t e) = same_service l l' (service_of e)

    reached : {l l' : Loop} → Reach sys cfg decode l l' → IsSafeStep l l'
    reached here = record { safe = inl refl }
    reached (next r s) = IsSafe-trans (reached r) (Step-IsSafe s)

    -- In every state that the steps of the service lead to, requests included, whatever fails, the
    -- output is as it was, or a config that sing-box accepts, in mode 0640, in which no tag but
    -- the empty one occurs twice; the output and the state are two different paths that are no
    -- temporary files.
    pub Reach-IsSafe :
        {l l' : Loop}
        → Reach sys cfg decode l l'
        → (l'.service.world.files cfg.output ≡ l.service.world.files cfg.output)
          ⊎ IsServed l'.service.world
    Reach-IsSafe r = (reached r).safe
