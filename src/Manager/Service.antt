-- ===== src/Manager/Service.antt =====
-- What `update` leaves in the files and in the health.
use egress_router.Common.{
  inr, inl, sym, none, refl, Option, none, some, [], ◌∷◌, ◌≡◌, ◌≢◌, arith, Text, Result, ok, err,
  if◌then◌else◌, ◌==◌, text_eq, text_beq_iff,
}
use egress_router.System.{World}
use egress_router.System.Frame.{Spares}
use egress_router.Manager.Writing.{IsPlain}
use egress_router.Manager.Defs.{Subscription, State, Platform, Config, UpdateError, Report}
use egress_router.Manager.Update.{replace_subscription, transaction, Service, update}
use egress_router.Manager.Transaction.{
  transaction-Kept, transaction-Spared, transaction-IsUpdated, transaction-IsRestored, IsUpdated,
  IsRestored,
}

-- The URL that a state has for a name.
abbrev pub url_of : Text → State → Option Text
url_of name [] = none
url_of name (sub ∷ subs) =
    let rest = url_of name subs in if sub.name == name then some sub.url else rest

-- A subscription that is added has its URL under its name, and every other name has the URL that
-- it had.
pub replace_subscription-url_of :
    (add : Subscription) (state : State) (name : Text)
    → url_of name (replace_subscription add state)
      ≡ (if name == add.name then some add.url else url_of name state)
unfolding replace_subscription
replace_subscription-url_of add [] name =
    ground (arith, text_beq_iff add.name name, text_beq_iff name add.name)
replace_subscription-url_of add (sub ∷ subs) name = ground (
  arith,
  replace_subscription-url_of add subs name,
  text_beq_iff add.name name,
  text_beq_iff name add.name,
  text_beq_iff sub.name add.name,
  text_beq_iff sub.name name,
)

module _ (sys : Platform) (cfg : Config) (add : Option Subscription) (s : Service) where
  -- An update changes no file but the output, the state and its own temporary files.
  pub update-Kept :
      (r : Text)
      → IsPlain r
      → r ≢ cfg.state
      → r ≢ cfg.output
      → (update sys cfg add s).0.world.files r ≡ s.world.files r
  unfolding update
  update-Kept r n k o = transaction-Kept sys cfg add r n (inr k) o s.world

  -- An update that returns an error, at any stage and for any reason, leaves the output as it was,
  -- where the output is not the path of the state and no temporary file.
  pub update_failed :
      IsPlain cfg.output
      → cfg.output ≢ cfg.state
      → {e : UpdateError} → (update sys cfg add s).1 ≡ err e
      → (update sys cfg add s).0.world.files cfg.output ≡ s.world.files cfg.output
  unfolding update
  update_failed n k h =
      spared (transaction sys cfg add s.world)
        (transaction-Spared sys cfg add cfg.output n (inr k) s.world) h
    where
      spared :
          (p : World × Result UpdateError Report)
          → Spares cfg.output s.world p
          → {e : UpdateError} → p.1 ≡ err e
          → p.0.files cfg.output ≡ s.world.files cfg.output
      spared (w', ok _) h f = ground arith
      spared (w', err _) h f = h

  -- An update that returns a report, where the output and the state are two different paths that
  -- are no temporary files: the state was read; the base config is the object that the base file
  -- decoded to at the start; the nodes are what `gather_providers` gathers from the web for the
  -- subscriptions that were read and the added one, each the item of a line of a feed that the web
  -- gave for one of them (`IsFed`), and they are sound (`IsGathered`) against the tags of the base
  -- config; the report is theirs; the output holds, in mode 0640, the base config with these
  -- nodes, which sing-box accepts, its outbounds those of the base config, with the generated tags
  -- in its groups, and the nodes, and every other key as it was; and an added subscription is in
  -- the stored state.
  pub update-IsUpdated :
      IsPlain cfg.output
      → IsPlain cfg.state
      → cfg.output ≢ cfg.state
      → {rep : Report} → (update sys cfg add s).1 ≡ ok rep
      → IsUpdated sys cfg add rep s.world (update sys cfg add s).0.world
  unfolding update
  update-IsUpdated out st apart h = transaction-IsUpdated sys cfg add out st apart s.world h

-- An update that adds a subscription and returns an error leaves the state file as it was, or the
-- file holds the state that was read, or the error is the one for a failed rollback; the state's
-- path is no temporary file.
pub update-IsRestored :
    (sys : Platform) (cfg : Config) (sub : Subscription) (s : Service)
    → IsPlain cfg.state
    → {e : UpdateError} → (update sys cfg (some sub) s).1 ≡ err e
    → IsRestored sys cfg s.world (update sys cfg (some sub) s).0.world e
unfolding update
update-IsRestored sys cfg sub s st h = transaction-IsRestored sys cfg st sub s.world h

-- An update that adds no subscription, such as a refresh, leaves the state file as it was, however
-- it ends; the state is not the output and its path is no temporary file.
pub update_without_add :
    (sys : Platform) (cfg : Config) (s : Service)
    → IsPlain cfg.state
    → cfg.output ≢ cfg.state
    → (update sys cfg none s).0.world.files cfg.state ≡ s.world.files cfg.state
unfolding update
update_without_add sys cfg s n k =
    transaction-Kept sys cfg none cfg.state n (inl refl) (λ e. k (sym e)) s.world
