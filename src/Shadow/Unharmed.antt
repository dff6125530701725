-- ===== src/Shadow/Unharmed.antt =====
-- The files that `Run` of shadow.go leaves alone.
use egress_router.Common.{
  ℕ, Option, ◌≡◌, ◌≢◌, refl, ◌∙◌, Text, lit, text_eq, Result, ok, err, or_err, result_map,
  Bool-cases, inl, inr,
}
use egress_router.System.{
  World, chmod, write, close, sync, alive, now, rename, temp_name, Io, ◌>>=◌, pure, lift, require,
  removing,
}
use egress_router.System.Frame.{
  Kept, Spares, Spared, chmod-KeptBy, write-KeptBy, close-KeptBy, sync-KeptBy, alive-KeptBy,
  rename-KeptBy, rename_failed, create_temp-Kept, read_file-Kept, >>=-Kept, removing-Kept,
  >>=-Spared, removing-Spared, Spared-pure,
}
use egress_router.Paths.{dir}
use egress_router.Manager.Files.{created}
use egress_router.Manager.Writing.{created-IsCreated}
use egress_router.Shadow.Defs.{
  Snapshot, Options, Report, Platform, ShadowError, invalid_options, invalid_snapshot,
  create_candidate_failed, write_candidate_failed, flush_candidate_failed, validation_failed,
  snapshot_expired, set_permissions_failed, publish_failed,
}
use egress_router.Shadow.Snapshot.{seconds_of}
use egress_router.Shadow.Output.{check_output, check_output-Kept}
use egress_router.Shadow.Candidate.{candidate}
use egress_router.Shadow.Run.{
  request_snapshot, check_snapshot, read_base, validate, closing, write_candidate, approve,
  publish_candidate, publish, Built, build, report, run, nodes_of,
}

-- A path that no temporary file of a run has.
abbrev pub IsPlain : Text → Type 0
IsPlain r = (d random : Text) → r ≢ temp_name d (lit ".catalog-shadow-") random

module _ (sys : Platform) (opts : Options) where
  -- The last steps of `build`.
  abbrev pub based : Option Snapshot → Io ShadowError Built
  based s = read_base sys opts.base >>= λ base. lift (
      result_map (λ (c : Text × ℕ). record { snapshot = s; config = c.0; count = c.1 })
        (candidate sys (nodes_of s) base))

  abbrev pub checked : Option Snapshot → Io ShadowError Built
  checked s = check_snapshot s opts.max_age invalid_snapshot >>= λ _. based s

  abbrev pub aged : ℕ → Io ShadowError Built
  aged age = request_snapshot sys opts age >>= checked

  abbrev pub placed : Io ShadowError Built
  placed = lift (or_err (seconds_of opts.max_age) invalid_options) >>= aged

  abbrev pub published : Built → Io ShadowError Report
  published b = publish sys opts b.snapshot b.config >>= λ _. pure (report sys b)

  abbrev pub last_check : Option Snapshot → Io ShadowError (Unit {0})
  last_check s =
      check_snapshot s opts.max_age snapshot_expired >>= λ _. check_output sys opts.base opts.output

  -- The steps of `publish_candidate` behind each of the first two.
  abbrev pub moded : Text → Io ShadowError (Unit {0})
  moded t = require (chmod t 0o640) set_permissions_failed >>= λ _.
      require (rename t opts.output) publish_failed

  abbrev pub approved : Option Snapshot → Text → Io ShadowError (Unit {0})
  approved s t = approve sys opts s t >>= λ _. moded t

  abbrev pub create : Io ShadowError Text
  create = created (dir opts.output) (lit ".catalog-shadow-") create_candidate_failed

  abbrev pub candidate_at : Option Snapshot → Text → Text → Io ShadowError (Unit {0})
  candidate_at s config t = removing t (closing t (publish_candidate sys opts s config t))

module _ (sys : Platform) (opts : Options) (r : Text) where
  pub validate-Kept : (t : Text) → Kept r (validate sys t)
  unfolding validate
  validate-Kept t w = read_file-Kept r t w

  read_base-Kept : Kept r (read_base sys opts.base)
  unfolding read_base
  read_base-Kept w = read_file-Kept r opts.base w

  pub check_snapshot-Kept :
      (s : Option Snapshot) (e : ShadowError) → Kept r (check_snapshot s opts.max_age e)
  unfolding check_snapshot now
  check_snapshot-Kept s e w = refl

  pub request_snapshot-Kept : (age : ℕ) → Kept r (request_snapshot sys opts age)
  unfolding request_snapshot
  request_snapshot-Kept age w = refl

  write_candidate-Kept : (t config : Text) → r ≢ t → Kept r (write_candidate t config)
  unfolding write_candidate
  write_candidate-Kept t config n =
      >>=-Kept r (require (write t config) write_candidate_failed)
        (λ _.
          require (sync t) flush_candidate_failed >>= λ _. require (close t) flush_candidate_failed)
        (write-KeptBy r t config n)
        (λ _ _ _.
          >>=-Kept r (require (sync t) flush_candidate_failed)
            (λ _. require (close t) flush_candidate_failed) (sync-KeptBy r t)
            (λ _ _ _. close-KeptBy r t))

  pub approve-Kept : (s : Option Snapshot) (t : Text) → Kept r (approve sys opts s t)
  unfolding approve
  approve-Kept s t =
      >>=-Kept r (validate sys t)
        (λ _. require alive validation_failed >>= λ _.
          require alive snapshot_expired >>= λ _. last_check sys opts s)
        (validate-Kept t)
        (λ _ _ _.
          >>=-Kept r (require alive validation_failed)
            (λ _. require alive snapshot_expired >>= λ _. last_check sys opts s) (alive-KeptBy r)
            (λ _ _ _.
              >>=-Kept r (require alive snapshot_expired) (λ _. last_check sys opts s)
                (alive-KeptBy r)
                (λ _ _ _.
                  >>=-Kept r (check_snapshot s opts.max_age snapshot_expired)
                    (λ _. check_output sys opts.base opts.output)
                    (check_snapshot-Kept s snapshot_expired)
                    (λ _ _ _. check_output-Kept sys opts.base opts.output r))))

  module _ (s : Option Snapshot) (config : Text) where
    pub publish_candidate-Kept :
        (t : Text) → r ≢ t → r ≢ opts.output → Kept r (publish_candidate sys opts s config t)
    unfolding publish_candidate
    publish_candidate-Kept t n o =
        >>=-Kept r (write_candidate t config) (λ _. approved sys opts s t)
          (write_candidate-Kept t config n)
          (λ _ _ _.
            >>=-Kept r (approve sys opts s t) (λ _. moded sys opts t) (approve-Kept s t)
              (λ _ _ _.
                >>=-Kept r (require (chmod t 0o640) set_permissions_failed)
                  (λ _. require (rename t opts.output) publish_failed) (chmod-KeptBy r t 0o640 n)
                  (λ _ _ _. rename-KeptBy r t opts.output n o)))

    rename-Spared : (t : Text) → Spared r (require (rename t opts.output) publish_failed)
    rename-Spared t w = elim (Bool-cases (rename t opts.output w).1) [
      | inl e ↦ rw e tt
      | inr e ↦ rw e (rename_failed r t opts.output w e)
    ]

    publish_candidate-Spared : (t : Text) → r ≢ t → Spared r (publish_candidate sys opts s config t)
    unfolding publish_candidate
    publish_candidate-Spared t n =
        >>=-Spared r (write_candidate t config) (λ _. approved sys opts s t)
          (write_candidate-Kept t config n)
          (λ _ _ _.
            >>=-Spared r (approve sys opts s t) (λ _. moded sys opts t) (approve-Kept s t)
              (λ _ _ _.
                >>=-Spared r (require (chmod t 0o640) set_permissions_failed)
                  (λ _. require (rename t opts.output) publish_failed) (chmod-KeptBy r t 0o640 n)
                  (λ _ _ _. rename-Spared t)))

    create-Kept : IsPlain r → Kept r (create sys opts)
    create-Kept n =
        create_temp-Kept r (dir opts.output) (lit ".catalog-shadow-") (n (dir opts.output))

    pub create-ne : IsPlain r → (w : World) (t : Text) → ((create sys opts) w).1 ≡ ok t → r ≢ t
    create-ne n w t h e =
        let c =
          created-IsCreated (dir opts.output) (lit ".catalog-shadow-") create_candidate_failed w
            h in
        n (dir opts.output) c.random (e ∙ c.named)

    publish-Kept : IsPlain r → r ≢ opts.output → Kept r (publish sys opts s config)
    unfolding publish
    publish-Kept n o =
        >>=-Kept r (create sys opts) (candidate_at sys opts s config) (create-Kept n) (λ w t h.
          removing-Kept r t (closing t (publish_candidate sys opts s config t)) (create-ne n w t h)
            (λ u.
              close-KeptBy r t (publish_candidate sys opts s config t u).0
              ∙ publish_candidate-Kept t (create-ne n w t h) o u))

    closing-Spared :
        (t : Text) (m : Io ShadowError (Unit {0})) → Spared r m → Spared r (closing t m)
    closing-Spared t m h w = step (m w) (h w)
      where
        step :
            (q : World × Result ShadowError (Unit {0}))
            → Spares r w q
            → Spares r w ((close t q.0).0, q.1)
        step (w', ok a) k = tt
        step (w', err x) k = close-KeptBy r t w' ∙ k

    publish-Spared : IsPlain r → Spared r (publish sys opts s config)
    unfolding publish
    publish-Spared n =
        >>=-Spared r (create sys opts) (candidate_at sys opts s config) (create-Kept n) (λ w t h.
          removing-Spared r t (closing t (publish_candidate sys opts s config t))
            (create-ne n w t h)
            (closing-Spared t (publish_candidate sys opts s config t)
              (publish_candidate-Spared t (create-ne n w t h))))

  based-Kept : (s : Option Snapshot) → Kept r (based sys opts s)
  based-Kept s =
      >>=-Kept r (read_base sys opts.base)
        (λ base. lift (
          result_map (λ (c : Text × ℕ). record { snapshot = s; config = c.0; count = c.1 })
            (candidate sys (nodes_of s) base)))
        read_base-Kept (λ _ _ _ _. refl)

  pub build-Kept : Kept r (build sys opts)
  unfolding build
  build-Kept =
      >>=-Kept r (check_output sys opts.base opts.output) (λ _. placed sys opts)
        (check_output-Kept sys opts.base opts.output r)
        (λ _ _ _.
          >>=-Kept r (lift (or_err (seconds_of opts.max_age) invalid_options)) (aged sys opts)
            (λ _. refl)
            (λ _ age _.
              >>=-Kept r (request_snapshot sys opts age) (checked sys opts)
                (request_snapshot-Kept age)
                (λ _ s _.
                  >>=-Kept r (check_snapshot s opts.max_age invalid_snapshot)
                    (λ _. based sys opts s) (check_snapshot-Kept s invalid_snapshot)
                    (λ _ _ _. based-Kept s))))

  pub run-Spared : IsPlain r → Spared r (run sys opts)
  unfolding run
  run-Spared n = >>=-Spared r (build sys opts) (published sys opts) build-Kept (λ _ b _.
      Spared-pure r (publish sys opts b.snapshot b.config) (λ _. report sys b)
        (publish-Spared b.snapshot b.config n))

  -- A `Run` leaves every file as it was, however it ends, that is not the output and whose path is
  -- no temporary file.
  pub run-Kept : IsPlain r → r ≢ opts.output → Kept r (run sys opts)
  unfolding run
  run-Kept n o = >>=-Kept r (build sys opts) (published sys opts) build-Kept (λ _ b _.
      >>=-Kept r (publish sys opts b.snapshot b.config) (λ _. pure (report sys b))
        (publish-Kept b.snapshot b.config n o) (λ _ _ _ _. refl))
