-- ===== src/Manager/Transaction.antt =====
-- The part of `update` that reads the state and builds, and what it leaves in the files.
use egress_router.Common.{
  true, Option, some, ◌≡◌, ◌≢◌, ◌⊎◌, inl, inr, refl, ◌∙◌, arith, Text, Result, ok, err, text_eq,
}
use egress_router.System.{World}
use egress_router.System.Frame.{Kept, Spares, Spared, read_file-Kept}
use egress_router.Manager.Files.{read_state, StateError}
use egress_router.Manager.Writing.{IsPlain, state_file}
use egress_router.Manager.Build.{build_state}
use egress_router.Manager.Publish.{IsUnwritten, Spares-after}
use egress_router.System.Recover.{Recovers}
use egress_router.Manager.Recovery.{IsRolledBack}
use egress_router.Manager.Base.{read_state-IsWebOf}
use egress_router.Manager.Refresh.{
  build_state-Recovering, build_state-Kept, build_state-Spared, IsBuilt, IsBuilt-earlier,
  build_state-IsBuilt,
}
use egress_router.Manager.Defs.{
  Subscription, State, Platform, Config, UpdateError, publish_and_rollback_failed, Report,
}
use egress_router.Manager.Update.{replace_subscription, with_added, is_add, transaction, state_read}

pub read_state-Kept : (sys : Platform) (path r : Text) → Kept r (read_state sys path)
unfolding read_state
read_state-Kept sys path r w = read_file-Kept r path w

pub transaction-Kept :
    (sys : Platform) (cfg : Config) (add : Option Subscription) (r : Text)
    → IsPlain r
    → IsUnwritten cfg (is_add add) r
    → r ≢ cfg.output
    → Kept r (transaction sys cfg add)
unfolding transaction read_state
transaction-Kept sys cfg add r n k o w = step (state_read (read_state sys cfg.state w).1)
  where
    w' : World
    w' = (read_state sys cfg.state w).0

    step :
        (x : Result UpdateError State)
        → (elim x as (λ _. World × Result UpdateError Report) [
          | err e ↦ (w', err e)
          | ok state ↦ build_state sys cfg (with_added add state) state (is_add add) w'
        ]).0.files
            r
          ≡ w.files r
    step (err e) = read_file-Kept r cfg.state w
    step (ok state) =
        build_state-Kept sys cfg (with_added add state) state (is_add add) r n k o w'
        ∙ read_file-Kept r cfg.state w

pub transaction-Spared :
    (sys : Platform) (cfg : Config) (add : Option Subscription) (r : Text)
    → IsPlain r
    → IsUnwritten cfg (is_add add) r
    → Spared r (transaction sys cfg add)
unfolding transaction read_state
transaction-Spared sys cfg add r n k w = step (state_read (read_state sys cfg.state w).1)
  where
    w' : World
    w' = (read_state sys cfg.state w).0

    step :
        (x : Result UpdateError State)
        → Spares r w (elim x as (λ _. World × Result UpdateError Report) [
          | err e ↦ (w', err e)
          | ok state ↦ build_state sys cfg (with_added add state) state (is_add add) w'
        ])
    step (err e) = read_file-Kept r cfg.state w
    step (ok state) =
        Spares-after r w w' (read_file-Kept r cfg.state w)
          (build_state sys cfg (with_added add state) state (is_add add) w')
          (build_state-Spared sys cfg (with_added add state) state (is_add add) r n k w')

-- What a failed run with an added subscription does to the state file: nothing, or it writes the
-- state that was read, or the error tells that it could not.
abbrev pub IsRestored : Platform → Config → World → World → UpdateError → Type 0
IsRestored sys cfg w w' e =
    (w'.files cfg.state ≡ w.files cfg.state)
    ⊎ (((previous : State) × ((read_state sys cfg.state w).1 ≡ ok previous)
          × (w'.files cfg.state ≡ some (state_file sys cfg.state previous)))
        ⊎ (e ≡ publish_and_rollback_failed))

module _ (sys : Platform) (cfg : Config) (st : IsPlain cfg.state) where
  pub transaction-IsRestored :
      (sub : Subscription) (w : World) {e : UpdateError}
      → (transaction sys cfg (some sub) w).1 ≡ err e
      → IsRestored sys cfg w (transaction sys cfg (some sub) w).0 e
  unfolding transaction
  transaction-IsRestored sub w {e} = step (read_state sys cfg.state w).1 refl
    where
      w' : World
      w' = (read_state sys cfg.state w).0

      kept : w'.files cfg.state ≡ w.files cfg.state
      kept = read_state-Kept sys cfg.state cfg.state w

      restored :
          (previous : State)
          → (read_state sys cfg.state w).1 ≡ ok previous
          → (p : World × Result UpdateError Report)
          → Recovers cfg.state (IsRolledBack sys cfg previous st) w' p
          → p.1 ≡ err e
          → IsRestored sys cfg w p.0 e
      restored previous q (w'', ok _) h f = ground arith
      restored previous q (w'', err x) (inl h) f = inl (h ∙ kept)
      restored previous q (w'', err x) (inr (inl h)) f = inr (inl (previous, q, h))
      restored previous q (w'', err x) (inr (inr h)) f = inr (inr (cc (f, h)))

      run : Result UpdateError State → World × Result UpdateError Report
      run x = elim x [
        | err e ↦ (w', err e)
        | ok state ↦ build_state sys cfg (with_added (some sub) state) state true w'
      ]

      step :
          (x : Result StateError State)
          → (read_state sys cfg.state w).1 ≡ x
          → (run (state_read x)).1 ≡ err e
          → IsRestored sys cfg w (run (state_read x)).0 e
      step (err x) q f = inl kept
      step (ok previous) q f =
          restored previous q (run (ok previous))
            (build_state-Recovering sys cfg (replace_subscription sub previous) previous st w') f

-- A successful run: the state read, and the files with the config built from it.
pub record IsUpdated (sys : Platform) (cfg : Config) (add : Option Subscription) (rep : Report)
    (w w' : World) : Type 0 where
  pub previous : State
  pub was_read : (read_state sys cfg.state w).1 ≡ ok previous
  pub built : IsBuilt sys cfg (with_added add previous) previous (is_add add) rep w w'

pub transaction-IsUpdated :
    (sys : Platform) (cfg : Config) (add : Option Subscription)
    → IsPlain cfg.output
    → IsPlain cfg.state
    → cfg.output ≢ cfg.state
    → (w : World) {rep : Report} → (transaction sys cfg add w).1 ≡ ok rep
    → IsUpdated sys cfg add rep w (transaction sys cfg add w).0
unfolding transaction
transaction-IsUpdated sys cfg add out st apart w {rep} = step (read_state sys cfg.state w).1 refl
  where
    w' : World
    w' = (read_state sys cfg.state w).0

    run : Result UpdateError State → World × Result UpdateError Report
    run x = elim x [
      | err e ↦ (w', err e)
      | ok state ↦ build_state sys cfg (with_added add state) state (is_add add) w'
    ]

    step :
        (x : Result StateError State)
        → (read_state sys cfg.state w).1 ≡ x
        → (run (state_read x)).1 ≡ ok rep
        → IsUpdated sys cfg add rep w (run (state_read x)).0
    step (err x) q f = ground arith
    step (ok previous) q f = record {
      previous = previous;
      was_read = q;
      built =
          IsBuilt-earlier sys cfg (with_added add previous) previous (is_add add) w w'
            (run (ok previous)).0 (read_state-Kept sys cfg.state cfg.base w)
            (read_state-IsWebOf sys cfg.state w)
            (build_state-IsBuilt sys cfg (with_added add previous) previous (is_add add) out st
              apart w' f);
    }
