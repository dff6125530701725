-- ===== src/Manager/Publish.antt =====
-- The effects of `buildState` on the output and on the other files.
use egress_router.Common.{
  arith, Bool, true, false, ◌≡◌, ◌≢◌, ◌⊎◌, inl, inr, refl, ◌∙◌, Text, lit, text_eq, Result, ok, err,
  Bool-cases,
}
use egress_router.Paths.{dir}
use egress_router.System.{World, mkdir_all, rename, Io, ◌>>=◌, raise, require, removing}
use egress_router.System.Frame.{
  Kept, Spares, Spared, mkdir_all-KeptBy, rename-KeptBy, rename_failed, create_temp-Kept,
  read_file-Kept, >>=-Kept, removing-Kept, Kept-Spared, >>=-Spared, removing-Spared,
}
use egress_router.Manager.Defs.{
  State, Platform, Config, UpdateError, create_output_dir_failed, create_candidate_failed,
  set_permissions_failed, write_candidate_failed, persist_state_failed, publish_and_rollback_failed,
  publish_failed,
}
use egress_router.Manager.Files.{fill_or, created}
use egress_router.Manager.Writing.{IsPlain, fill_or-Kept, created-IsCreated, write_json_atomic-Kept}
use egress_router.Manager.Build.{
  validate, write_state, when_persist, roll_back, commit, publish_candidate, publish,
}

abbrev Done : Type 0
Done = World × Result UpdateError (Unit {0})

write_state-Kept :
    (sys : Platform) (path : Text) (s : State) (e : UpdateError) (r : Text)
    → IsPlain r
    → r ≢ path
    → Kept r (write_state sys path s e)
unfolding write_state
write_state-Kept sys path s e r n k w = write_json_atomic-Kept sys path s r n k w

pub validate-Kept : (sys : Platform) (t r : Text) → Kept r (validate sys t)
unfolding validate
validate-Kept sys t r w = read_file-Kept r t w

when_persist-Kept :
    (r : Text) (b : Bool) (m : Io UpdateError (Unit {0})) → Kept r m → Kept r (when_persist b m)
when_persist-Kept r true m h w = h w
when_persist-Kept r false m h w = refl

pub Spares-after :
    {E A : Type 0} (r : Text) (w w' : World)
    → w'.files r ≡ w.files r
    → (p : World × Result E A) → Spares r w' p
    → Spares r w p
Spares-after r w w' e (w'', ok a) s = tt
Spares-after r w w' e (w'', err x) s = s ∙ e

-- A file that `buildState` does not write besides its output: a run without `persist` does not write
-- the state.
abbrev pub IsUnwritten : Config → Bool → Text → Type 0
IsUnwritten cfg persist r = (persist ≡ false) ⊎ (r ≢ cfg.state)

roll_back-Kept :
    (sys : Platform) (cfg : Config) (previous : State) (r : Text)
    → IsPlain r
    → (persist : Bool) → IsUnwritten cfg persist r
    → Kept r (roll_back sys cfg previous persist)
unfolding roll_back
roll_back-Kept sys cfg previous r n true (inl e) w = absurd (ground (arith, e))
roll_back-Kept sys cfg previous r n true (inr k) w =
    >>=-Kept r (write_state sys cfg.state previous publish_and_rollback_failed)
      (λ _. raise publish_failed)
      (write_state-Kept sys cfg.state previous publish_and_rollback_failed r n k) (λ _ _ _ _. refl)
      w
roll_back-Kept sys cfg previous r n false k w = refl

module _ (sys : Platform) (cfg : Config) (previous : State) (r : Text) (n : IsPlain r)
    (persist : Bool) (k : IsUnwritten cfg persist r) where
  kept : Kept r (roll_back sys cfg previous persist)
  kept = roll_back-Kept sys cfg previous r n persist k

  commit-Kept : (t : Text) → r ≢ t → r ≢ cfg.output → Kept r (commit sys cfg previous persist t)
  unfolding commit
  commit-Kept t a b w = elim (Bool-cases (rename t cfg.output w).1) [
    | inl e ↦ rw e (rename-KeptBy r t cfg.output a b w)
    | inr e ↦ rw e (kept (rename t cfg.output w).0 ∙ rename_failed r t cfg.output w e)
  ]

  -- A rename that fails leaves every other file but the state as it was, the output too.
  commit-Spared : (t : Text) → Spared r (commit sys cfg previous persist t)
  unfolding commit
  commit-Spared t w = elim (Bool-cases (rename t cfg.output w).1) [
    | inl e ↦ rw e tt
    | inr e ↦ rw e (
        Spares-after r w (rename t cfg.output w).0 (rename_failed r t cfg.output w e)
          (roll_back sys cfg previous persist (rename t cfg.output w).0)
          (Kept-Spared r (roll_back sys cfg previous persist) kept (rename t cfg.output w).0))
  ]

module _ (sys : Platform) (cfg : Config) (state previous : State) (persist : Bool)
    (config : Text) where
  -- The steps of `publish` and what follows each of them.
  abbrev filled : Text → Io UpdateError (Unit {0})
  filled t = fill_or t 0o640 config set_permissions_failed write_candidate_failed

  abbrev persisted : Io UpdateError (Unit {0})
  persisted = when_persist persist (write_state sys cfg.state state persist_state_failed)

  abbrev from_commit : Text → Io UpdateError (Unit {0})
  from_commit t = commit sys cfg previous persist t

  abbrev from_persist : Text → Io UpdateError (Unit {0})
  from_persist t = persisted >>= λ _. from_commit t

  abbrev from_validate : Text → Io UpdateError (Unit {0})
  from_validate t = validate sys t >>= λ _. from_persist t

  abbrev candidate : Text → Io UpdateError (Unit {0})
  candidate t = removing t (publish_candidate sys cfg state previous persist config t)

  abbrev pub make_dir : Io UpdateError (Unit {0})
  make_dir = require (mkdir_all (dir cfg.output)) create_output_dir_failed

  abbrev pub create : Io UpdateError Text
  create = created (dir cfg.output) (lit ".config-") create_candidate_failed

  pub create-ne : (r : Text) → IsPlain r → (w : World) (t : Text) → (create w).1 ≡ ok t → r ≢ t
  create-ne r n w t h e =
      let c = created-IsCreated (dir cfg.output) (lit ".config-") create_candidate_failed w h in
      n.no_config (dir cfg.output) c.random (e ∙ c.named)

  pub create-Kept : (r : Text) → IsPlain r → Kept r (create)
  create-Kept r n =
      create_temp-Kept r (dir cfg.output) (lit ".config-") (n.no_config (dir cfg.output))

  persisted-Kept : (r : Text) → IsPlain r → IsUnwritten cfg persist r → Kept r (persisted)
  persisted-Kept r n (inl e) = λ w. rw e refl
  persisted-Kept r n (inr k) =
      when_persist-Kept r persist (write_state sys cfg.state state persist_state_failed)
        (write_state-Kept sys cfg.state state persist_state_failed r n k)

  module _ (r : Text) (n : IsPlain r) (k : IsUnwritten cfg persist r) where
    candidate-Kept : r ≢ cfg.output → (t : Text) → r ≢ t → Kept r (candidate t)
    unfolding publish_candidate
    candidate-Kept o t a =
        removing-Kept r t (publish_candidate sys cfg state previous persist config t) a (
          >>=-Kept r (filled t) (λ _. from_validate t)
            (fill_or-Kept r t 0o640 config set_permissions_failed write_candidate_failed a)
            (λ _ _ _.
              >>=-Kept r (validate sys t) (λ _. from_persist t) (validate-Kept sys t r)
                (λ _ _ _.
                  >>=-Kept r (persisted) (λ _. from_commit t) (persisted-Kept r n k)
                    (λ _ _ _. commit-Kept sys cfg previous r n persist k t a o))))

    candidate-Spared : (t : Text) → r ≢ t → Spared r (candidate t)
    unfolding publish_candidate
    candidate-Spared t a =
        removing-Spared r t (publish_candidate sys cfg state previous persist config t) a (
          >>=-Spared r (filled t) (λ _. from_validate t)
            (fill_or-Kept r t 0o640 config set_permissions_failed write_candidate_failed a)
            (λ _ _ _.
              >>=-Spared r (validate sys t) (λ _. from_persist t) (validate-Kept sys t r)
                (λ _ _ _.
                  >>=-Spared r (persisted) (λ _. from_commit t) (persisted-Kept r n k)
                    (λ _ _ _. commit-Spared sys cfg previous r n persist k t))))

    -- A file that is neither the output, the state nor a temporary file is not touched.
    pub publish-Kept : r ≢ cfg.output → Kept r (publish sys cfg state previous persist config)
    unfolding publish
    publish-Kept o =
        >>=-Kept r (make_dir) (λ _. create >>= candidate) (mkdir_all-KeptBy r (dir cfg.output))
          (λ _ _ _.
            >>=-Kept r (create) (candidate) (create-Kept r n)
              (λ w t h. candidate-Kept o t (create-ne r n w t h)))

    -- A run that fails leaves the output as it was.
    pub publish-Spared : Spared r (publish sys cfg state previous persist config)
    unfolding publish
    publish-Spared =
        >>=-Spared r (make_dir) (λ _. create >>= candidate) (mkdir_all-KeptBy r (dir cfg.output))
          (λ _ _ _.
            >>=-Spared r (create) (candidate) (create-Kept r n)
              (λ w t h. candidate-Spared t (create-ne r n w t h)))
