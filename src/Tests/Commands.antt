-- ===== src/Tests/Commands.antt =====
-- The command catalog-shadow on samples.
use egress_router.Common.{
  true, none, some, [], ◌≡◌, refl, lit, text_beq, if◌then◌else◌, ◌==◌, nat_eq, text_eq, ok, err,
  split, join, has_prefix, contains_any, atoi, digits_value, decimal, contains_text, cut,
  space_width, last_space_width, drop_spaces, trim_space, fields_from, fields, to_lower, equal_fold,
  trim,
}
use egress_router.Common.Json.{get, put, erase, items, elems}
use egress_router.Url.{unescape, parse_query, query_get, query_set}
use egress_router.Node.{
  protocol_of, put_if, query_bool, allowed_fingerprint, with_utls, reality_from, with_reality,
  with_options, tls_map, tls_from, transport_from, check_query, credentials_of, require_tls,
  with_tls, with_transport, parse_parsed, parse_uri, vless_flow, with_credentials,
}
use egress_router.System.{
  chmod, write, close, sync, alive, now, remove, rename, create_temp, read_file, lstat, stat,
}
use egress_router.Manager.Gather.{base_tags, is_group, with_tags}
use egress_router.Manager.Settings.{Environment}
use egress_router.Paths.{reduce, clean, up_to_slash, dir, base_name, absolute, ancestors}
use egress_router.Shadow.Defs.{snapshot_request_failed}
use egress_router.Shadow.Access.{checked_token, token, transport, dial}
use egress_router.Shadow.Snapshot.{valid_nodes, valid_at, valid_snapshot}
use egress_router.Shadow.Place.{output_path}
use egress_router.Shadow.Output.{check_path, check_paths, check_output}
use egress_router.Shadow.Alias.{check_alias}
use egress_router.Shadow.Candidate.{add_node, choose_node, choose_nodes, shadow_config, candidate}
use egress_router.Shadow.Run.{
  request_snapshot, check_snapshot, read_base, validate, write_candidate, approve,
  publish_candidate, publish, build, hex, run,
}
use egress_router.Shadow.Command.{Parsed, Outside, declared, run_command}
use egress_router.Shadow.Executed.{run_command_failed}
use egress_router.Tests.Shadows.{snapshot, platform, options, world, reported, output-IsPlain}

-- --base b --output /w/catalog-shadow.json --allow-insecure
abbrev flags : Parsed
flags = record {
  texts = λ k.
      if k == lit "base"
      then some options.base
      else if k == lit "output"
      then some options.output
      else none;
  durations = λ _. none;
  bools = λ k. if k == lit "allow-insecure" then some true else none;
  rest = 0;
}

abbrev outside : Outside
outside = record {
  parse_flags = λ _. some flags;
  accepts = λ _ _. true;
  catalog = λ _ _ _. some (some snapshot);
}

-- The catalog does not answer.
abbrev silent : Outside
silent = record outside { catalog = λ _ _ _. none }

abbrev getenv : Environment
getenv k =
    if k == lit "CATALOG_TOKEN"
    then lit "t"
    else if k == lit "CATALOG_ADDR"
    then lit "localhost:443"
    else []

runs :
    ((run_command platform outside [] getenv world).1 ≡ ok reported)
    × ((run_command platform silent [] getenv world).1 ≡ err snapshot_request_failed)
unfolding run_command declared run build publish publish_candidate approve write_candidate validate
    read_base check_snapshot request_snapshot check_output check_alias check_paths check_path
    output_path hex candidate shadow_config choose_nodes choose_node add_node valid_snapshot
    valid_at valid_nodes reduce clean up_to_slash dir base_name absolute ancestors lstat stat now
    alive sync chmod write close remove rename create_temp read_file base_tags with_tags is_group
    parse_uri parse_parsed get put erase items elems unescape parse_query query_get query_set
    protocol_of put_if query_bool allowed_fingerprint with_utls reality_from with_reality
    with_options tls_map tls_from transport_from check_query credentials_of require_tls with_tls
    with_transport vless_flow with_credentials lit text_beq has_prefix contains_text split join cut
    space_width last_space_width drop_spaces trim_space fields_from fields to_lower equal_fold trim
    contains_any atoi digits_value decimal token checked_token dial transport
runs = (refl, refl)

run_command_failed_example :
    (run_command platform silent [] getenv world).0.files options.output
    ≡ world.files options.output
run_command_failed_example =
    run_command_failed platform silent [] getenv options.output world output-IsPlain runs.1
