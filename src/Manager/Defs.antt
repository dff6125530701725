-- ===== src/Manager/Defs.antt =====
-- The types of subscription-manager/main.go, and what its code takes from the standard library and
-- from sing-box without their being modelled: the parsers and printers, and the validator.
use egress_router.Common.{ℕ, Bool, Option, List, Text}
use egress_router.Common.Json.{Map}
use egress_router.Node.{NodeError, ParseUrl}

pub record Subscription : Type 0 where
  pub name : Text
  pub url : Text

-- The `Subscriptions` of a `State`.
abbrev pub State : Type 0
State = List Subscription

-- `decode_object` is json.Unmarshal into a `map[string]any` (JSON `null` gives the empty map),
-- `encode_object` and `encode_state` are json.MarshalIndent, `marshal` is json.Marshal, `accepts` the
-- verdict of `sing-box check` on a file's content.
pub record Platform : Type 0 where
  pub parse_url : ParseUrl
  pub decode_object : Text → Option Map
  pub encode_object : Map → Text
  pub decode_state : Text → Option State
  pub encode_state : State → Text
  pub marshal : Map → Text
  pub accepts : Text → Bool

-- The fields of a Manager that are set once.
pub record Config : Type 0 where
  pub base : Text
  pub output : Text
  pub state : Text

-- The messages of `update` and `buildState`; a number is `providerIndex+1`.
pub data UpdateError : Type 0 where
  read_state_failed read_base_failed decode_base_failed base_outbounds_not_array : UpdateError
  invalid_base_outbound base_tag_collision name_collision tag_collision : UpdateError
  fetch_failed empty_provider no_parsed_nodes : ℕ → UpdateError
  create_output_dir_failed create_candidate_failed set_permissions_failed : UpdateError
  write_candidate_failed validation_failed persist_state_failed : UpdateError
  publish_and_rollback_failed publish_failed : UpdateError

-- "provider %d node %d: %s"
pub record Warning : Type 0 where
  pub provider : ℕ
  pub node : ℕ
  pub reason : NodeError

-- The map that `buildState` returns.
pub record Report : Type 0 where
  pub nodes : ℕ
  pub errors : List Warning
  pub skipped_nodes : ℕ
