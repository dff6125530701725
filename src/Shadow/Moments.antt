-- ===== src/Shadow/Moments.antt =====
-- When the parts of `Run` in shadow.go happen.
use egress_router.Common.{
  ℕ, Option, none, some, ◌⊎◌, ◌≢◌, ◌≡◌, arith, Text, length, All, or_err, result_map,
}
use mathlib.Core.Path.{subst}
use egress_router.System.{
  World, Entry, directory, write, close, sync, now, ◌>>=◌, lift, require, stat,
}
use egress_router.System.Later.{
  IsLater, same_time, later, Later, >>=-Later, write-Later, close-Later, sync-Later,
  read_file-Later, stat-Later, tick-Later,
}
use egress_router.Paths.{ancestors}
use egress_router.Paths.Termination.{path_of, paths_above}
use egress_router.Shadow.Defs.{
  Snapshot, Options, Platform, ShadowError, invalid_options, invalid_snapshot,
  write_candidate_failed, flush_candidate_failed,
}
use egress_router.Shadow.Snapshot.{seconds_of}
use egress_router.Shadow.Place.{output_path}
use egress_router.Shadow.Output.{check_paths-Later, check_paths, check_output, IsSafe}
use egress_router.Shadow.Alias.{IsUnaliased-earlier, check_alias}
use egress_router.Shadow.Candidate.{candidate}
use egress_router.Shadow.Run.{
  request_snapshot, check_snapshot, read_base, validate, write_candidate, build, nodes_of,
}
use egress_router.Shadow.Unharmed.{based, checked, aged, placed}

check_alias-Later : (abs base : Text) → Later (check_alias abs base)
unfolding check_alias
check_alias-Later abs base w =
    let a = stat-Later abs w in
    let b = later a (stat-Later base (stat abs w).0) in
    record {
      clock = ground (arith, a.clock, b.clock);
      others = ground (arith, a.others, b.others);
      plan = ground (arith, a.plan, b.plan);
      inodes = ground (arith, a.inodes, b.inodes);
      calls = ground (arith, a.calls, b.calls);
    }

module _ (sys : Platform) (opts : Options) where
  pub check_output-Later : Later (check_output sys opts.base opts.output)
  unfolding check_output
  check_output-Later =
      >>=-Later (lift (output_path sys.getwd opts.base opts.output))
        (λ abs. check_paths abs (ancestors (length abs) abs) >>= λ _. check_alias abs opts.base)
        same_time
        (λ abs.
          >>=-Later (check_paths abs (ancestors (length abs) abs)) (λ _. check_alias abs opts.base)
            (check_paths-Later abs (ancestors (length abs) abs))
            (λ _. check_alias-Later abs opts.base))

  pub validate-Later : (t : Text) → Later (validate sys t)
  unfolding validate
  validate-Later t w = read_file-Later t w

  read_base-Later : Later (read_base sys opts.base)
  unfolding read_base
  read_base-Later w = read_file-Later opts.base w

  pub check_snapshot-Later :
      (s : Option Snapshot) (e : ShadowError) → Later (check_snapshot s opts.max_age e)
  unfolding check_snapshot now
  check_snapshot-Later s e w = tick-Later w

  pub request_snapshot-Later : (age : ℕ) → Later (request_snapshot sys opts age)
  unfolding request_snapshot
  request_snapshot-Later age w = tick-Later w

  pub write_candidate-Later : (t config : Text) → Later (write_candidate t config)
  unfolding write_candidate
  write_candidate-Later t config =
      >>=-Later (require (write t config) write_candidate_failed)
        (λ _.
          require (sync t) flush_candidate_failed >>= λ _. require (close t) flush_candidate_failed)
        (write-Later t config)
        (λ _.
          >>=-Later (require (sync t) flush_candidate_failed)
            (λ _. require (close t) flush_candidate_failed) (sync-Later t) (λ _. close-Later t))

  pub based-Later : (s : Option Snapshot) → Later (based sys opts s)
  based-Later s =
      >>=-Later (read_base sys opts.base)
        (λ base. lift (
          result_map (λ (c : Text × ℕ). record { snapshot = s; config = c.0; count = c.1 })
            (candidate sys (nodes_of s) base)))
        read_base-Later (λ _. same_time)

  pub build-Later : Later (build sys opts)
  unfolding build
  build-Later =
      >>=-Later (check_output sys opts.base opts.output) (λ _. placed sys opts) check_output-Later
        (λ _.
          >>=-Later (lift (or_err (seconds_of opts.max_age) invalid_options)) (aged sys opts)
            same_time
            (λ age.
              >>=-Later (request_snapshot sys opts age) (checked sys opts)
                (request_snapshot-Later age)
                (λ s.
                  >>=-Later (check_snapshot s opts.max_age invalid_snapshot) (λ _. based sys opts s)
                    (check_snapshot-Later s invalid_snapshot) (λ _. based-Later s))))

-- A path that is safe is so all the time.
pub IsSafe-earlier :
    {w w' : World} (getwd : Option Text) (base output : Text)
    → IsLater w w'
    → IsSafe w' getwd base output
    → IsSafe w getwd base output
IsSafe-earlier getwd base output l h = record {
  components = h.components;
  proper = h.proper;
  place = h.place;
  checked =
      subst
        (λ (others : Text → Option Entry).
          All
            (λ p.
              ((p ≡ path_of h.components) × (others p ≡ none))
              ⊎ ((p ≢ path_of h.components) × (others p ≡ some directory)))
            (paths_above h.components))
        l.others h.checked;
  unaliased = IsUnaliased-earlier l h.unaliased;
}
