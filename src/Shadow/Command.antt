-- ===== src/Shadow/Command.antt =====
-- catalog-client/cmd/catalog-shadow/main.go.
use egress_router.Common.{
  ℕ, Bool, true, false, ◌||◌, Option, none, some, List, [], Text, lit, ◌==◌, nat_eq, text_eq,
  if◌then◌else◌, ℤ, pos, Result, ok, err, reject,
}
use egress_router.System.{Io, ◌>>=◌, ◌>>◌, lift}
use egress_router.Manager.Settings.{Environment}
use egress_router.Shadow.Defs.{
  Snapshot, SnapshotRequest, Options, Report, Platform, ShadowError, invalid_arguments,
  invalid_options,
}
use egress_router.Shadow.Access.{token, Connection, dial}
use egress_router.Shadow.Snapshot.{seconds_of}
use egress_router.Shadow.Output.{check_output}
use egress_router.Shadow.Run.{run}

-- What the arguments set, by the name and the type of a flag, and flags.NArg().
pub record Parsed : Type 0 where
  pub texts : Text → Option Text
  pub durations : Text → Option ℤ
  pub bools : Text → Option Bool
  pub rest : ℕ

-- The values of the flags.
pub record Flags : Type 0 where
  pub base : Text
  pub output : Text
  pub max_age : ℤ
  pub sing_box : Text
  pub allow_insecure : Bool
  pub trusted_network : Bool

-- `parse_flags` is flags.Parse; `accepts` the verdict of a validator on a
-- file's content; `catalog` the answer of the catalog over a connection, as `get_snapshot`.
pub record Outside : Type 0 where
  pub parse_flags : List Text → Option Parsed
  pub accepts : Text → Text → Bool
  pub catalog : Connection → ℕ → SnapshotRequest → Option (Option Snapshot)

abbrev pub or_default : {A : Type 0} → A → Option A → A
or_default d none = d
or_default d (some a) = a

-- time.Hour
abbrev pub hour : ℤ
hour = pos 3600000000000

-- The flags that `run` declares, with their defaults.
unfoldable pub declared : Parsed → Flags
declared p = record {
  base = or_default [] (p.texts (lit "base"));
  output = or_default (lit "runtime/catalog-shadow.json") (p.texts (lit "output"));
  max_age = or_default hour (p.durations (lit "max-age"));
  sing_box = or_default (lit "sing-box") (p.texts (lit "sing-box"));
  allow_insecure = or_default false (p.bools (lit "allow-insecure"));
  trusted_network = or_default false (p.bools (lit "trusted-network"));
}

abbrev pub flags_of : Option Parsed → Result ShadowError Flags
flags_of none = err invalid_arguments
flags_of (some p) = if p.rest == 0 then ok (declared p) else err invalid_arguments

-- *maxAge < time.Second
abbrev pub is_short : ℤ → Bool
is_short max_age = elim (seconds_of max_age) [ none ↦ true | some _ ↦ false ]

-- The options and the platform of `shadow.Run`.
abbrev pub options : Flags → Text → Options
options f secret = record { base = f.base; output = f.output; token = secret; max_age = f.max_age }

abbrev pub with_client : Platform → Outside → Flags → Connection → Platform
with_client sys out f c = record sys {
  accepts = out.accepts f.sing_box;
  get_snapshot = out.catalog c;
}

-- `run`
unfoldable pub run_command : Platform → Outside → List Text → Environment → Io ShadowError Report
run_command sys out args getenv = do
  f ← lift (flags_of (out.parse_flags args))
  check_output sys f.base f.output
  lift (reject (is_short f.max_age || f.sing_box == []) invalid_options)
  secret ← token (getenv (lit "CATALOG_TOKEN")) (getenv (lit "CATALOG_TOKEN_FILE"))
  c ← lift (dial sys (getenv (lit "CATALOG_ADDR")) secret f.allow_insecure f.trusted_network)
  run (with_client sys out f c) (options f secret)
