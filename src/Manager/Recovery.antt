-- ===== src/Manager/Recovery.antt =====
-- What a failed `buildState` leaves in the state file.
use egress_router.Common.{
  Bool, true, false, Option, some, ◌≡◌, ◌≢◌, ◌⊎◌, inl, inr, refl, sym, ap, ◌∙◌, arith, Text,
  if◌then◌else◌, Result, ok, err,
}
use egress_router.Paths.{dir}
use egress_router.System.{File, World, rename, Io, ◌>>=◌, raise, removing}
use egress_router.System.Frame.{Spares, Spared, mkdir_all-KeptBy}
use egress_router.System.Recover.{
  Recovering, Told, >>=-Recovering, removing-Recovering, Spared-then,
}
use egress_router.Manager.Defs.{
  State, Platform, Config, UpdateError, set_permissions_failed, write_candidate_failed,
  persist_state_failed, publish_and_rollback_failed, publish_failed,
}
use egress_router.Manager.Files.{fill_or, write_json_atomic, WriteError}
use egress_router.Manager.Writing.{IsPlain, fill_or-Kept, write_json_atomic-Spared, state_file}
use egress_router.Manager.Build.{
  validate, or_failed, write_state, when_persist, roll_back, commit, publish_candidate, publish,
}
use egress_router.Manager.Publish.{create-ne, create-Kept, create, make_dir, validate-Kept}
use egress_router.Manager.Committed.{write_state-done}

write_state-Spared :
    (sys : Platform) (path : Text) (s : State) (e : UpdateError)
    → IsPlain path
    → Spared path (write_state sys path s e)
unfolding write_state
write_state-Spared sys path s e n w =
    step (write_json_atomic sys path s w) (write_json_atomic-Spared sys path s n w)
  where
    step :
        (p : World × Result WriteError (Unit {0}))
        → Spares path w p
        → Spares path w (p.0, or_failed p.1 e)
    step (w', ok u) h = tt
    step (w', err x) h = h

-- A failed write of the state has the error that it was given.
write_state-err :
    (sys : Platform) (path : Text) (s : State) (e e' : UpdateError) (w : World)
    → (write_state sys path s e w).1 ≡ err e'
    → e' ≡ e
unfolding write_state
write_state-err sys path s e e' w h = ground arith

module _ (sys : Platform) (cfg : Config) (previous : State) (st : IsPlain cfg.state) where
  -- The state file holds the previous state again, or the error says that the rollback failed.
  abbrev pub IsRolledBack : Option File → UpdateError → Type 0
  IsRolledBack f e =
      (f ≡ some (state_file sys cfg.state previous)) ⊎ (e ≡ publish_and_rollback_failed)

  roll_back-Told : (w : World) → Told cfg.state IsRolledBack (roll_back sys cfg previous true w)
  unfolding roll_back
  roll_back-Told w = step (write_state sys cfg.state previous publish_and_rollback_failed w) refl
    where
      step :
          (p : World × Result UpdateError (Unit {0}))
          → write_state sys cfg.state previous publish_and_rollback_failed w ≡ p
          → Told cfg.state IsRolledBack
              (◌>>=◌ {B = Unit {0}} (λ _. p) (λ _. raise publish_failed) w)
      step (w', ok u) q = inl (
          sym (ap (λ (p : World × Result UpdateError (Unit {0})). p.0.files cfg.state) q)
          ∙ write_state-done sys cfg.state previous publish_and_rollback_failed w st
              (ap (λ (p : World × Result UpdateError (Unit {0})). p.1) q))
      step (w', err x) q = inr (
          write_state-err sys cfg.state previous publish_and_rollback_failed x w
            (ap (λ (p : World × Result UpdateError (Unit {0})). p.1) q))

  commit-Told :
      (t : Text) (w : World) → Told cfg.state IsRolledBack (commit sys cfg previous true t w)
  unfolding commit
  commit-Told t w = step (rename t cfg.output w).1
    where
      step :
          (b : Bool)
          → Told cfg.state IsRolledBack (
              if b
              then ((rename t cfg.output w).0, ok tt)
              else roll_back sys cfg previous true (rename t cfg.output w).0)
      step true = tt
      step false = roll_back-Told (rename t cfg.output w).0

  module _ (state : State) (config : Text) where
    candidate-Recovering :
        (t : Text)
        → cfg.state ≢ t
        → Recovering cfg.state IsRolledBack (publish_candidate sys cfg state previous true config t)
    unfolding publish_candidate
    candidate-Recovering t n =
        >>=-Recovering cfg.state IsRolledBack
          (fill_or t 0o640 config set_permissions_failed write_candidate_failed)
          (λ _. from_validate)
          (fill_or-Kept cfg.state t 0o640 config set_permissions_failed write_candidate_failed n)
          (λ _ _ _.
            >>=-Recovering cfg.state IsRolledBack (validate sys t) (λ _. from_persist)
              (validate-Kept sys t cfg.state)
              (λ _ _ _.
                Spared-then cfg.state IsRolledBack
                  (write_state sys cfg.state state persist_state_failed)
                  (λ _. commit sys cfg previous true t)
                  (write_state-Spared sys cfg.state state persist_state_failed st)
                  (λ w _. commit-Told t w)))
      where
        from_persist : Io UpdateError (Unit {0})
        from_persist =
            when_persist true (write_state sys cfg.state state persist_state_failed) >>= λ _.
            commit sys cfg previous true t

        from_validate : Io UpdateError (Unit {0})
        from_validate = validate sys t >>= λ _. from_persist

    -- A run with `persist` that fails: the state file is as it was before, or it holds the previous
    -- state, or the error is the one for a failed rollback.
    pub publish-Recovering :
        Recovering cfg.state IsRolledBack (publish sys cfg state previous true config)
    unfolding publish
    publish-Recovering =
        >>=-Recovering cfg.state IsRolledBack (make_dir sys cfg state previous true config)
          (λ _. create sys cfg state previous true config >>= candidate)
          (mkdir_all-KeptBy cfg.state (dir cfg.output))
          (λ _ _ _.
            >>=-Recovering cfg.state IsRolledBack (create sys cfg state previous true config)
              candidate (create-Kept sys cfg state previous true config cfg.state st)
              (λ w t h.
                let n = create-ne sys cfg state previous true config cfg.state st w t h in
                removing-Recovering cfg.state IsRolledBack t
                  (publish_candidate sys cfg state previous true config t) n
                  (candidate-Recovering t n)))
      where
        candidate : Text → Io UpdateError (Unit {0})
        candidate t = removing t (publish_candidate sys cfg state previous true config t)
