-- ===== src/Tests/Shadows.antt =====
-- catalog-shadow on samples.
use egress_router.Common.{
  ◌↔◌, ℕ, suc, ◌+◌, ◌≤◌, true, false, none, some, List, [], ◌∷◌, ◌++◌, ◌≡◌, ◌≢◌, refl, ap, arith,
  Text, lit, text_beq, All, if◌then◌else◌, ◌==◌, nat_eq, text_eq, length, ok, pos, split, join,
  has_prefix, contains_any, atoi, digits_value, decimal, contains_text, cut, space_width,
  last_space_width, drop_spaces, trim_space, fields_from, fields, to_lower, equal_fold, trim,
}
use egress_router.Common.Json.{get, put, erase, items, elems}
use egress_router.Url.{unescape, parse_query, query_get, query_set}
use egress_router.Node.{
  protocol_of, put_if, query_bool, allowed_fingerprint, with_utls, reality_from, with_reality,
  with_options, tls_map, tls_from, transport_from, check_query, credentials_of, require_tls,
  with_tls, with_transport, parse_parsed, parse_uri, vless_flow, with_credentials,
}
use egress_router.System.{
  World, directory, chmod, write, close, sync, alive, now, remove, rename, create_temp, read_file,
  lstat, stat, temp_name,
}
use egress_router.Manager.Gather.{base_tags, is_group, with_tags}
use egress_router.Paths.{reduce, clean, up_to_slash, dir, base_name, absolute, ancestors}
use egress_router.Paths.Ancestors.{IsProper}
use egress_router.Paths.Termination.{path_of, paths_above, IsRootedWd, ancestors-absolute}
use egress_router.Shadow.Defs.{Snapshot, Options, Report, Platform}
use egress_router.Shadow.Access.{
  checked_token, token, transport, dial, IsToken, token-IsToken, IsAllowed, dial-IsAllowed,
}
use egress_router.Shadow.Snapshot.{
  valid_nodes, valid_at, valid_snapshot, IsValidFor, valid_snapshot-IsValid,
}
use egress_router.Shadow.Place.{output_path}
use egress_router.Shadow.Output.{check_path, check_paths, check_output, IsSafe, check_output-IsSafe}
use egress_router.Shadow.Alias.{check_alias}
use egress_router.Shadow.Candidate.{add_node, choose_node, choose_nodes, shadow_config, candidate}
use egress_router.Shadow.Run.{
  request_snapshot, check_snapshot, read_base, validate, write_candidate, approve,
  publish_candidate, publish, build, hex, run,
}
use egress_router.Shadow.Command.{hour}
use egress_router.Shadow.Unharmed.{IsPlain, run-Kept}
use egress_router.Shadow.Cleanup.{run_clean}
use egress_router.Shadow.Complete.{IsComplete, run-IsComplete}
use egress_router.Tests.Samples.{
  parse_url, raw_node, base_config, base_values, base_file, good_world,
}

abbrev pub snapshot : Snapshot
snapshot = record {
  id = lit "i";
  profile = lit "server";
  created_at = pos 900;
  valid_until = pos 2000;
  nodes = some (record { schema_version = 1; uri = raw_node; last_success = pos 950 }) ∷ [];
}

abbrev pub platform : Platform
platform = record {
  parse_url = parse_url;
  getwd = some (lit "/w");
  decode_object = λ _. some base_config;
  encode_object = λ _. some (lit "C");
  marshal = λ _. lit "M";
  accepts = λ _. true;
  get_snapshot = λ _ _. some (some snapshot);
  sha256 = λ s. s;
  split_host_port = λ _. some (lit "localhost", lit "443");
  is_loopback = λ _. false;
  new_client = λ _. true;
}

abbrev pub options : Options
options = record {
  base = lit "b";
  output = lit "/w/catalog-shadow.json";
  token = lit "t";
  max_age = hour;
}

abbrev pub world : World
world = record good_world {
  files = λ p.
      if p == lit "/w/catalog-shadow.json"
      then some (record { content = lit "O"; mode = 0o640 })
      else base_file p;
  others =
      λ p. if p == lit "/" then some directory else if p == lit "/w" then some directory else none;
  inodes = λ _ p.
      if p == lit "b" then some 1 else if p == lit "/w/catalog-shadow.json" then some 2 else none;
}

-- The file names of the samples have one dash, and those of temporary files two at least.
dashes : Text → ℕ
dashes [] = 0
dashes (c ∷ s) = let rest = dashes s in if c == 45 then suc rest else rest

dashes-append : (s t : Text) → dashes (s ++ t) ≡ dashes s + dashes t
unfolding dashes
dashes-append [] t = omega arith
dashes-append (c ∷ s) t = ground (arith, dashes-append s t)

dashed :
    (dashes (lit ".catalog-shadow-") ≡ 2) × (dashes options.output ≡ 1) × (dashes (lit "b") ≡ 0)
unfolding dashes lit
dashed = (refl, refl, refl)

few-IsPlain : (r : Text) → dashes r ≤ 1 → IsPlain r
few-IsPlain r h d random e = omega (
  arith,
  h,
  ap dashes e,
  dashes-append d (lit "/" ++ (lit ".catalog-shadow-" ++ random)),
  dashes-append (lit "/") (lit ".catalog-shadow-" ++ random),
  dashes-append (lit ".catalog-shadow-") random,
  dashed.0,
)

pub output-IsPlain : IsPlain options.output
output-IsPlain = few-IsPlain options.output (omega (arith, dashed.1))

pub getwd-IsRootedWd : IsRootedWd platform.getwd
unfolding lit
getwd-IsRootedWd = refl

abbrev pub reported : Report
reported = record { version = lit "69"; count = 1 }

runs :
    ((run platform options world).1 ≡ ok reported)
    × ((check_output platform options.base options.output world).1 ≡ ok tt)
    × (absolute platform.getwd (lit "catalog-shadow.json") ≡ some options.output)
    × (valid_snapshot (some snapshot) hour 1000 ≡ true)
    × (candidate platform snapshot.nodes (base_config, base_values) ≡ ok (lit "C\n", 1))
    × ((token (lit "t") [] world).1 ≡ ok (lit "t"))
    × (dial platform (lit "localhost:443") (lit "t") true false
        ≡ ok (record { target = lit "passthrough:///localhost:443"; plaintext = true }))
unfolding run build publish publish_candidate approve write_candidate validate read_base
    check_snapshot request_snapshot check_output check_alias check_paths check_path output_path hex
    candidate shadow_config choose_nodes choose_node add_node valid_snapshot valid_at valid_nodes
    reduce clean up_to_slash dir base_name absolute ancestors lstat stat now alive sync chmod write
    close remove rename create_temp read_file base_tags with_tags is_group parse_uri parse_parsed
    get put erase items elems unescape parse_query query_get query_set protocol_of put_if query_bool
    allowed_fingerprint with_utls reality_from with_reality with_options tls_map tls_from
    transport_from check_query credentials_of require_tls with_tls with_transport vless_flow
    with_credentials lit text_beq has_prefix contains_text split join cut space_width
    last_space_width drop_spaces trim_space fields_from fields to_lower equal_fold trim contains_any
    atoi digits_value decimal token checked_token dial transport
runs = (refl, refl, refl, refl, refl, refl, refl)

token-IsToken_example : IsToken (lit "t")
token-IsToken_example = token-IsToken (lit "t") [] world runs.5

dial-IsAllowed_example :
    IsAllowed platform
      (lit "localhost:443")
      true
      false
      (record { target = lit "passthrough:///localhost:443"; plaintext = true })
dial-IsAllowed_example = dial-IsAllowed platform (lit "localhost:443") (lit "t") true false runs.6

valid_snapshot-IsValid_example :
    (valid_snapshot (some snapshot) hour 1000 ≡ true) ↔ IsValidFor (some snapshot) hour 1000
valid_snapshot-IsValid_example = valid_snapshot-IsValid (some snapshot) hour 1000

check_output-IsSafe_example : IsSafe world platform.getwd options.base options.output
check_output-IsSafe_example =
    check_output-IsSafe platform options.base options.output world getwd-IsRootedWd runs.1

ancestors-absolute_example :
    (rs : List Text) × All IsProper rs
    × (options.output ≡ path_of rs)
    × (ancestors (length options.output + 2) options.output ≡ paths_above rs)
ancestors-absolute_example =
    ancestors-absolute platform.getwd (lit "catalog-shadow.json") 2 getwd-IsRootedWd runs.2

base-IsPlain : IsPlain (lit "b")
base-IsPlain = few-IsPlain (lit "b") (omega (arith, dashed.2))

base-ne : lit "b" ≢ options.output
unfolding lit
base-ne e = omega (arith, ap length e)

run-Kept_example : (run platform options world).0.files (lit "b") ≡ world.files (lit "b")
run-Kept_example = run-Kept platform options (lit "b") base-IsPlain base-ne world

run-IsComplete_example : IsComplete platform options world (run platform options world).0 reported
run-IsComplete_example =
    run-IsComplete platform options world getwd-IsRootedWd output-IsPlain runs.0

abbrev temporary : Text
temporary = temp_name (lit "/w") (lit ".catalog-shadow-") (lit "r")

temporary-ne : temporary ≢ options.output
unfolding lit
temporary-ne e = omega (arith, ap length e)

run_clean_example : (run platform options world).0.files temporary ≡ world.files temporary
run_clean_example = run_clean platform options temporary world temporary-ne refl
