-- ===== src/Shadow/Cleanup.antt =====
-- The temporary file of `Run` in shadow.go.
use mathlib.Core.Path.{subst}
use egress_router.Common.{
  ◌+◌, ◌-◌, Option, none, some, ◌≡◌, ◌≢◌, refl, sym, ap, ◌∙◌, arith, Text, lit, text_eq, ◌==◌,
  text_beq_iff, Result, ok, err, or_err, Bool-cases, inl, inr,
}
use egress_router.System.{
  World, Fate, goes, fate, create_temp, chmod, remove, rename, alive, ◌>>=◌, pure, require,
}
use egress_router.System.Frame.{close-KeptBy, remove-KeptBy}
use egress_router.System.Temporary.{IsCreated, create_temp-none, create_temp-IsCreated}
use egress_router.System.Later.{
  IsLater, later, Later, >>=-Later, chmod-Later, rename-Later, alive-Later, close-Later,
  create_temp-Later,
}
use egress_router.Paths.{dir}
use egress_router.Shadow.Defs.{
  Snapshot, Options, Report, Platform, ShadowError, validation_failed, snapshot_expired,
  create_candidate_failed, set_permissions_failed, publish_failed,
}
use egress_router.Shadow.Output.{check_output}
use egress_router.Shadow.Run.{
  check_snapshot, validate, write_candidate, approve, publish_candidate, publish, closing, Built,
  build, report, run,
}
use egress_router.Shadow.Unharmed.{
  last_check, moded, approved, candidate_at, published, publish_candidate-Kept, build-Kept,
}
use egress_router.Shadow.Moments.{
  check_output-Later, validate-Later, check_snapshot-Later, write_candidate-Later, build-Later,
}

-- The last call of a run that takes a world to another.
abbrev pub last_fate : World → World → Fate
last_fate w w' = w.plan (w'.calls - 1)

remove_calls : (t : Text) (w : World) → (remove t w).0.calls ≡ w.calls + 1
unfolding remove
remove_calls t w = ground arith

remove_last :
    (t : Text) (w : World) {s : Text} → last_fate w (remove t w).0 ≡ goes s → fate w ≡ goes s
remove_last t w h = ap w.plan (omega (arith, remove_calls t w)) ∙ h

removed : (t : Text) (w : World) {s : Text} → fate w ≡ goes s → (remove t w).0.files t ≡ none
unfolding remove
removed t w h = ground (arith, h, text_beq_iff t t)

module _ (sys : Platform) (opts : Options) where
  approve-Later : (s : Option Snapshot) (t : Text) → Later (approve sys opts s t)
  unfolding approve
  approve-Later s t =
      >>=-Later (validate sys t)
        (λ _. require alive validation_failed >>= λ _.
          require alive snapshot_expired >>= λ _. last_check sys opts s)
        (validate-Later sys opts t)
        (λ _.
          >>=-Later (require alive validation_failed)
            (λ _. require alive snapshot_expired >>= λ _. last_check sys opts s) alive-Later
            (λ _.
              >>=-Later (require alive snapshot_expired) (λ _. last_check sys opts s) alive-Later
                (λ _.
                  >>=-Later (check_snapshot s opts.max_age snapshot_expired)
                    (λ _. check_output sys opts.base opts.output)
                    (check_snapshot-Later sys opts s snapshot_expired)
                    (λ _. check_output-Later sys opts))))

  publish_candidate-Later :
      (s : Option Snapshot) (config t : Text) → Later (publish_candidate sys opts s config t)
  unfolding publish_candidate
  publish_candidate-Later s config t =
      >>=-Later (write_candidate t config) (λ _. approved sys opts s t)
        (write_candidate-Later sys opts t config)
        (λ _.
          >>=-Later (approve sys opts s t) (λ _. moded sys opts t) (approve-Later s t)
            (λ _.
              >>=-Later (require (chmod t 0o640) set_permissions_failed)
                (λ _. require (rename t opts.output) publish_failed) (chmod-Later t 0o640)
                (λ _. rename-Later t opts.output)))

  -- The file system behind a removal that succeeds is that from before the file was made.
  module _ (s : Option Snapshot) (config : Text) (r : Text) (o : r ≢ opts.output) (w : World) where
    abbrev filled : Text → World → World
    filled t w' = (closing t (publish_candidate sys opts s config t) w').0

    filled-IsLater : (t : Text) (w' : World) → IsLater w' (filled t w')
    filled-IsLater t w' =
        later (publish_candidate-Later s config t w')
          (close-Later t (publish_candidate sys opts s config t w').0)

    cleaned :
        (t : Text) {w' : World} {x : Text}
        → IsCreated (dir opts.output) (lit ".catalog-shadow-") t w w'
        → IsLater w w'
        → last_fate w (remove t (filled t w')).0 ≡ goes x
        → (remove t (filled t w')).0.files r ≡ w.files r
    cleaned t {w'} c l h = elim (Bool-cases (r == t)) [
      | inl e ↦
          let went = remove_last t (filled t w') (
            ap (λ p. p ((remove t (filled t w')).0.calls - 1)) (later l (filled-IsLater t w')).plan
            ∙ h) in
          subst (λ z. (remove t (filled t w')).0.files z ≡ w.files z) (sym ((text_beq_iff r t).0 e))
            (removed t (filled t w') went ∙ sym c.fresh)
      | inr e ↦
          let n : r ≢ t = λ q. ground (arith, q, e, text_beq_iff r t) in
          remove-KeptBy r t n (filled t w')
          ∙ close-KeptBy r t (publish_candidate sys opts s config t w').0
          ∙ publish_candidate-Kept sys opts r s config t n o w'
          ∙ c.others r n
    ]

    publish_clean :
        {x : Text}
        → last_fate w (publish sys opts s config w).0 ≡ goes x
        → (publish sys opts s config w).0.files r ≡ w.files r
    unfolding publish
    publish_clean {x} h = step (create_temp (dir opts.output) (lit ".catalog-shadow-") w) refl h
      where
        step :
            (p : World × Option Text)
            → create_temp (dir opts.output) (lit ".catalog-shadow-") w ≡ p
            → last_fate w
                (◌>>=◌ {B = Unit {0}}
                  (λ _. (p.0, or_err p.1 create_candidate_failed))
                  (candidate_at sys opts s config)
                  w).0
              ≡ goes x
            → (◌>>=◌ {B = Unit {0}}
                  (λ _. (p.0, or_err p.1 create_candidate_failed))
                  (candidate_at sys opts s config)
                  w).0.files
                r
              ≡ w.files r
        step (w', none) q k =
            ap (λ (p : World × Option Text). p.0.files r) (sym q)
            ∙ create_temp-none r (dir opts.output) (lit ".catalog-shadow-") w
                (ap (λ (p : World × Option Text). p.1) q)
        step (w', some t) q k =
            cleaned t
              (subst (λ (u : World). IsCreated (dir opts.output) (lit ".catalog-shadow-") t w u)
                (ap (λ (p : World × Option Text). p.0) q)
                (create_temp-IsCreated (dir opts.output) (lit ".catalog-shadow-") w
                  (ap (λ (p : World × Option Text). p.1) q)))
              (subst (IsLater w) (ap (λ (p : World × Option Text). p.0) q)
                (create_temp-Later (dir opts.output) (lit ".catalog-shadow-") w))
              k

  -- A `Run`, however it ends, whose last call does not fail, leaves every path but the output with
  -- the file it had, or without one: its temporary file is gone.
  pub run_clean :
      (r : Text) (w : World) {x : Text}
      → r ≢ opts.output
      → last_fate w (run sys opts w).0 ≡ goes x
      → (run sys opts w).0.files r ≡ w.files r
  unfolding run
  run_clean r w {x} o h = step (build sys opts w) refl h
    where
      published_files :
          (b : Built) (w' : World) (p : World × Result ShadowError (Unit {0}))
          → (last_fate w p.0 ≡ goes x → p.0.files r ≡ w'.files r)
          → last_fate w (◌>>=◌ {B = Report} (λ _. p) (λ _. pure (report sys b)) w').0 ≡ goes x
          → (◌>>=◌ {B = Report} (λ _. p) (λ _. pure (report sys b)) w').0.files r ≡ w'.files r
      published_files b w' (w'', ok a) k e = k e
      published_files b w' (w'', err y) k e = k e

      step :
          (p : World × Result ShadowError Built)
          → build sys opts w ≡ p
          → last_fate w (◌>>=◌ {B = Report} (λ _. p) (published sys opts) w).0 ≡ goes x
          → (◌>>=◌ {B = Report} (λ _. p) (published sys opts) w).0.files r ≡ w.files r
      step (w', err e) q k =
          ap (λ (p : World × Result ShadowError Built). p.0.files r) (sym q)
          ∙ build-Kept sys opts r w
      step (w', ok b) q k =
          let same : (build sys opts w).0 ≡ w' =
            ap (λ (p : World × Result ShadowError Built). p.0) q in
          let l = subst (IsLater w) same (build-Later sys opts w) in
          published_files b w' (publish sys opts b.snapshot b.config w')
            (λ went.
              publish_clean b.snapshot b.config r o w'
                (ap (λ p. p ((publish sys opts b.snapshot b.config w').0.calls - 1)) l.plan ∙ went))
            k
          ∙ ap (λ (u : World). u.files r) (sym same)
          ∙ build-Kept sys opts r w
