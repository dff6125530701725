-- ===== src/Manager/Update.antt =====
-- `update` of subscription-manager/main.go, with the health that its deferred function records.
use egress_router.Common.{
  ℕ, Bool, true, false, Option, none, some, [], ◌∷◌, ◌==◌, text_eq, if◌then◌else◌, Result, ok, err,
}
use egress_router.System.{World, Io}
use egress_router.Manager.Defs.{
  Subscription, State, Platform, Config, UpdateError, read_state_failed, Report,
}
use egress_router.Manager.Files.{StateError, read_state}
use egress_router.Manager.Build.{build_state}

-- The fields that `healthMu` guards; `none` is the zero time, and a time is the number of the system
-- call before which the clock was read.
pub record Health : Type 0 where
  pub last_attempt : Option ℕ
  pub last_success : Option ℕ
  pub nodes : ℕ
  pub skipped_nodes : ℕ
  pub last_error : Option UpdateError

-- The subscriptions of another name, and the new one behind them.
unfoldable pub replace_subscription : Subscription → State → State
replace_subscription add [] = add ∷ []
replace_subscription add (sub ∷ subs) =
    let rest = replace_subscription add subs in if sub.name == add.name then rest else sub ∷ rest

abbrev pub with_added : Option Subscription → State → State
with_added none state = state
with_added (some add) state = replace_subscription add state

abbrev pub is_add : Option Subscription → Bool
is_add none = false
is_add (some _) = true

abbrev pub state_read : Result StateError State → Result UpdateError State
state_read (ok s) = ok s
state_read (err _) = err read_state_failed

-- The body of `update` between the two lines on health.
unfoldable pub transaction : Platform → Config → Option Subscription → Io UpdateError Report
transaction sys cfg add w =
    let (w', r) = read_state sys cfg.state w in
    elim (state_read r) [
      | err e ↦ (w', err e)
      | ok state ↦ build_state sys cfg (with_added add state) state (is_add add) w'
    ]

-- The deferred function.
unfoldable pub record_health : ℕ → Result UpdateError Report → Health → Health
record_health now (ok r) h = record h {
  last_success = some now;
  nodes = r.nodes;
  skipped_nodes = r.skipped_nodes;
  last_error = none;
}
record_health now (err e) h = record h { last_error = some e }

pub record Service : Type 0 where
  pub health : Health
  pub world : World

-- `update`; the lock `mu` makes it one step of the service.
unfoldable pub update :
    Platform → Config → Option Subscription → Service → Service × Result UpdateError Report
update sys cfg add s =
    let begun = record s.health { last_attempt = some s.world.calls } in
    let (w, r) = transaction sys cfg add s.world in
    (record { health = record_health w.calls r begun; world = w }, r)
