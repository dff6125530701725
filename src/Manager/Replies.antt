-- ===== src/Manager/Replies.antt =====
-- What a request does, by its reply.
use egress_router.Common.{
  Option, ◌≡◌, ◌≢◌, refl, arith, Text, lit, Result, ok, err, if◌then◌else◌, text_eq, text_beq_iff,
}
use egress_router.Manager.Defs.{Subscription, Platform, Config, UpdateError, Report}
use egress_router.Manager.Writing.{IsPlain}
use egress_router.Manager.Fetch.{passes}
use egress_router.Manager.Update.{record_health, Service, update}
use egress_router.Manager.Service.{update_failed}
use egress_router.Manager.Transaction.{read_state-Kept}
use egress_router.Manager.Handler.{
  DecodeRequest, Request, Message, error_reply, HttpReply, reply, health_of, get_subscriptions,
  checked, updated, post, handler,
}

-- After an update the health is answered with status 200 if the update succeeded and with 503 if
-- not.
pub health_of-update :
    (sys : Platform) (cfg : Config) (add : Option Subscription) (s : Service)
    → (health_of (update sys cfg add s).0.health).status
      ≡ (if passes (update sys cfg add s).1 then 200 else 503)
unfolding health_of update record_health
health_of-update sys cfg add s = ground arith

module _ (sys : Platform) (cfg : Config) (decode : DecodeRequest) (r : Request) (s : Service) where
  updated_failed :
      IsPlain cfg.output
      → cfg.output ≢ cfg.state
      → (add : Option Subscription) (x : Result UpdateError Report) → (update sys cfg add s).1 ≡ x
      → (updated x).status ≢ 200
      → (update sys cfg add s).0.world.files cfg.output ≡ s.world.files cfg.output
  updated_failed n k add (ok rep) q h = absurd (h refl)
  updated_failed n k add (err e) q h = update_failed sys cfg add s n k q

  post_failed :
      IsPlain cfg.output
      → cfg.output ≢ cfg.state
      → (post sys cfg decode r s).1.status ≢ 200
      → (post sys cfg decode r s).0.world.files cfg.output ≡ s.world.files cfg.output
  unfolding post
  post_failed n k = step (checked sys decode r)
    where
      run : Result Message (Option Subscription) → Service × HttpReply
      run x = elim x [
        | err message ↦ (s, reply 400 (error_reply message))
        | ok add ↦ let (s', result) = update sys cfg add s in (s', updated result)
      ]

      step :
          (x : Result Message (Option Subscription))
          → (run x).1.status ≢ 200
          → (run x).0.world.files cfg.output ≡ s.world.files cfg.output
      step (err message) h = refl
      step (ok add) h = updated_failed n k add (update sys cfg add s).1 refl h

  -- A request that is answered with another status than 200 leaves the output as it was, where the
  -- output is not the path of the state and no temporary file.
  pub handler_failed :
      IsPlain cfg.output
      → cfg.output ≢ cfg.state
      → (handler sys cfg decode r s).1.status ≢ 200
      → (handler sys cfg decode r s).0.world.files cfg.output ≡ s.world.files cfg.output
  unfolding handler get_subscriptions
  handler_failed n k h =
      ground (arith, post_failed n k, read_state-Kept sys cfg.state cfg.output s.world)

  -- A request by another method than POST changes no file and not the health.
  pub handler_read_only :
      (path : Text)
      → r.method ≢ lit "POST"
      → ((handler sys cfg decode r s).0.world.files path ≡ s.world.files path)
        × ((handler sys cfg decode r s).0.health ≡ s.health)
  unfolding handler get_subscriptions
  handler_read_only path h =
      ground (arith, text_beq_iff r.method (lit "POST"), read_state-Kept sys cfg.state path s.world)
