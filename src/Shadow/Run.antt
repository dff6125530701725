-- ===== src/Shadow/Run.antt =====
-- `Run` of shadow.go.
use egress_router.Common.{
  ℕ, Option, none, some, List, [], ◌∷◌, ◌+◌, ◌/◌, ◌%◌, ltb, Text, lit, ◌++◌, if◌then◌else◌, ℤ, ok,
  err, or_err, result_map, take,
}
use egress_router.Common.Json.{Value, Map, get, as_array}
use egress_router.System.{
  tick, chmod, write, close, sync, rename, read_file, now, alive, Io, ◌>>=◌, ◌>>◌, pure, lift,
  require, removing,
}
use egress_router.Paths.{dir}
use egress_router.Manager.Defs.{read_base_failed, decode_base_failed, base_outbounds_not_array}
use egress_router.Manager.Files.{created}
use egress_router.Shadow.Defs.{
  Node, Snapshot, SnapshotRequest, Options, Report, Platform, ShadowError, base_error,
  invalid_options, snapshot_request_failed, invalid_snapshot, create_candidate_failed,
  write_candidate_failed, flush_candidate_failed, validation_failed, snapshot_expired,
  set_permissions_failed, publish_failed,
}
use egress_router.Shadow.Snapshot.{limit, seconds_of, valid_snapshot}
use egress_router.Shadow.Output.{check_output}
use egress_router.Shadow.Candidate.{candidate}

-- The request for `age` seconds.
abbrev pub snapshot_request : Options → ℕ → SnapshotRequest
snapshot_request opts age = record {
  profile = lit "server";
  limit = limit;
  max_age_seconds = age;
  authorization = lit "Bearer " ++ opts.token;
}

-- client.GetSnapshot
unfoldable pub request_snapshot : Platform → Options → ℕ → Io ShadowError (Option Snapshot)
request_snapshot sys opts age w =
    (tick w, or_err (sys.get_snapshot w.calls (snapshot_request opts age)) snapshot_request_failed)

-- A check of the snapshot against the clock.
unfoldable pub check_snapshot : Option Snapshot → ℤ → ShadowError → Io ShadowError (Unit {0})
check_snapshot s max_age e w =
    let (w', t) = now w in (w', if valid_snapshot s max_age t then ok tt else err e)

-- The base config and its outbounds.
unfoldable pub read_base : Platform → Text → Io ShadowError (Map × List Value)
read_base sys path w =
    let (w', r) = read_file path w in
    (
      w',
      elim r [
        | err _ ↦ err (base_error read_base_failed)
        | ok s ↦ elim (sys.decode_object s) [
          | none ↦ err (base_error decode_base_failed)
          | some base ↦ elim (as_array (get "outbounds" base)) [
            | none ↦ err (base_error base_outbounds_not_array)
            | some values ↦ ok (base, values)
          ]
        ]
      ],
    )

-- `Validate`: the verdict of the validator on the file.
unfoldable pub validate : Platform → Text → Io ShadowError (Unit {0})
validate sys path w =
    let (w', r) = read_file path w in
    (
      w',
      elim r [
        | ok config ↦ if sys.accepts config then ok tt else err validation_failed
        | err _ ↦ err validation_failed
      ],
    )

-- `defer f.Close()`: closing a closed file is an error that is ignored.
abbrev pub closing : {E A : Type 0} → Text → Io E A → Io E A
closing p m w = let (w', r) = m w in ((close p w').0, r)

unfoldable pub write_candidate : Text → Text → Io ShadowError (Unit {0})
write_candidate temporary config = do
  require (write temporary config) write_candidate_failed
  require (sync temporary) flush_candidate_failed
  require (close temporary) flush_candidate_failed

-- The checks before the publication.
unfoldable pub approve : Platform → Options → Option Snapshot → Text → Io ShadowError (Unit {0})
approve sys opts snapshot temporary = do
  validate sys temporary
  require alive validation_failed
  require alive snapshot_expired
  check_snapshot snapshot opts.max_age snapshot_expired
  check_output sys opts.base opts.output

-- From the candidate file to the published one.
unfoldable pub publish_candidate :
    Platform → Options → Option Snapshot → Text → Text → Io ShadowError (Unit {0})
publish_candidate sys opts snapshot config temporary = do
  write_candidate temporary config
  approve sys opts snapshot temporary
  require (chmod temporary 0o640) set_permissions_failed
  require (rename temporary opts.output) publish_failed

unfoldable pub publish : Platform → Options → Option Snapshot → Text → Io ShadowError (Unit {0})
publish sys opts snapshot config = do
  temporary ← created (dir opts.output) (lit ".catalog-shadow-") create_candidate_failed
  removing temporary (closing temporary (publish_candidate sys opts snapshot config temporary))

-- snapshot.Id and snapshot.Nodes; `validSnapshot` has refused a nil snapshot.
abbrev pub id_of : Option Snapshot → Text
id_of none = []
id_of (some s) = s.id

abbrev pub nodes_of : Option Snapshot → List (Option Node)
nodes_of none = []
nodes_of (some s) = s.nodes

-- hex.EncodeToString
abbrev hex_digit : ℕ → ℕ
hex_digit n = if ltb n 10 then 48 + n else 87 + n

unfoldable pub hex : Text → Text
hex [] = []
hex (c ∷ s) = hex_digit (c / 16) ∷ hex_digit (c % 16) ∷ hex s

-- A candidate: its snapshot, its bytes and the number of its nodes.
pub record Built : Type 0 where
  pub snapshot : Option Snapshot
  pub config : Text
  pub count : ℕ

-- `Run` up to the candidate.
unfoldable pub build : Platform → Options → Io ShadowError Built
build sys opts = do
  check_output sys opts.base opts.output
  age ← lift (or_err (seconds_of opts.max_age) invalid_options)
  snapshot ← request_snapshot sys opts age
  check_snapshot snapshot opts.max_age invalid_snapshot
  base ← read_base sys opts.base
  lift (
      result_map (λ (c : Text × ℕ). record { snapshot = snapshot; config = c.0; count = c.1 })
        (candidate sys (nodes_of snapshot) base))

abbrev pub report : Platform → Built → Report
report sys b = record { version = hex (take 8 (sys.sha256 (id_of b.snapshot))); count = b.count }

-- `Run`
unfoldable pub run : Platform → Options → Io ShadowError Report
run sys opts = do
  built ← build sys opts
  publish sys opts built.snapshot built.config
  pure (report sys built)
