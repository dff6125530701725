-- ===== src/Shadow/Defs.antt =====
-- The types of shadow.go, and what its code takes from other packages without its being modelled.
use egress_router.Common.{ℕ, Bool, Option, List, Text, ℤ}
use egress_router.Common.Json.{Map}
use egress_router.Node.{ParseUrl}
use egress_router.Manager.Defs.{UpdateError}

-- catalogv1.Node, with the fields that the code reads.
pub record Node : Type 0 where
  pub schema_version : ℕ
  pub uri : Text
  pub last_success : ℤ

-- catalogv1.Snapshot; a node may be nil. Times are seconds since 1970.
pub record Snapshot : Type 0 where
  pub id : Text
  pub profile : Text
  pub created_at : ℤ
  pub valid_until : ℤ
  pub nodes : List (Option Node)

-- catalogv1.GetSnapshotRequest, with the authorization that goes with it
pub record SnapshotRequest : Type 0 where
  pub profile : Text
  pub limit : ℕ
  pub max_age_seconds : ℕ
  pub authorization : Text

-- `Options`; `max_age` is a time.Duration in nanoseconds.
pub record Options : Type 0 where
  pub base : Text
  pub output : Text
  pub token : Text
  pub max_age : ℤ

-- `Result`
pub record Report : Type 0 where
  pub version : Text
  pub count : ℕ

-- `get_snapshot` is the answer of the catalog at a system call: `none` is an error, and `some none` a
-- nil snapshot; `sha256` gives the bytes of a digest; `split_host_port` is net.SplitHostPort,
-- `is_loopback` net.ParseIP with IsLoopback, `new_client` whether grpc.NewClient takes an address;
-- the other fields are as in Manager.Defs.
pub record Platform : Type 0 where
  pub parse_url : ParseUrl
  pub getwd : Option Text
  pub decode_object : Text → Option Map
  pub encode_object : Map → Option Text
  pub marshal : Map → Text
  pub accepts : Text → Bool
  pub get_snapshot : ℕ → SnapshotRequest → Option (Option Snapshot)
  pub sha256 : Text → Text
  pub split_host_port : Text → Option (Text × Text)
  pub is_loopback : Text → Bool
  pub new_client : Text → Bool

-- The messages; those that `buildState` has too are its own.
pub data ShadowError : Type 0 where
  invalid_catalog_address invalid_catalog_token plaintext_requires_loopback : ShadowError
  trusted_requires_insecure client_setup_failed : ShadowError
  two_token_sources read_token_failed token_required : ShadowError
  unsafe_output_path invalid_options snapshot_request_failed invalid_snapshot : ShadowError
  base_error : UpdateError → ShadowError
  node_parse_failed outbound_tag_collision encode_candidate_failed : ShadowError
  create_candidate_failed write_candidate_failed flush_candidate_failed : ShadowError
  validation_failed snapshot_expired set_permissions_failed publish_failed : ShadowError
  invalid_arguments : ShadowError
