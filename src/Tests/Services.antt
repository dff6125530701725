-- ===== src/Tests/Services.antt =====
-- `update`, `handler` and `newManager` on samples.
use egress_router.Common.{
  ◌+◌, ◌≤◌, Bool, true, if◌then◌else◌, ◌==◌, nat_eq, text_eq, length, Option, none, some, [], ◌∷◌,
  ◌≡◌, ◌≢◌, refl, arith, Text, lit, text_beq, has_prefix, contains_text, split, join, cut,
  space_width, last_space_width, drop_spaces, trim_space, fields_from, fields, to_lower, equal_fold,
  trim, contains_any, atoi, digits_value, decimal, ok, err,
}
use egress_router.Common.Json.{get, put, erase, items, elems}
use egress_router.Base64.{decode_base64}
use egress_router.Url.{unescape, parse_query, query_get, query_set}
use egress_router.Node.{
  protocol_of, put_if, query_bool, allowed_fingerprint, with_utls, reality_from, with_reality,
  with_options, tls_map, tls_from, transport_from, check_query, credentials_of, require_tls,
  with_tls, with_transport, parse_parsed, parse_uri, vless_flow, with_credentials,
}
use egress_router.Feed.{entries, decode_body}
use egress_router.Paths.{reduce, clean, up_to_slash, dir}
use egress_router.System.{
  World, goes, fails, mkdir_all, chmod, write, close, remove, rename, create_temp, read_file,
  request,
}
use egress_router.Manager.Defs.{Subscription, fetch_failed, Report}
use egress_router.Manager.Names.{replace_from, node_name, fragment, node_tag}
use egress_router.Manager.Requests.{AreSecure, follow_secure, fetch-length}
use egress_router.Manager.Handler.{Request, checked, post, handler, health_of}
use egress_router.Manager.Replies.{handler_failed, handler_read_only, health_of-update}
use egress_router.Manager.Gathered.{IsGathered}
use egress_router.Manager.Providers.{gather_providers-IsGathered}
use egress_router.Manager.Settings.{
  Environment, Settings, second, max_int64, env, settings_of, new_manager, new_manager_bounds,
}
use egress_router.Manager.Writing.{
  IsPlain, state_file, write_json_atomic_failed, write_json_atomic-done,
}
use egress_router.Manager.Transaction.{IsUpdated, IsRestored}
use egress_router.Manager.Posted.{handler-IsAdded, IsAdded}
use egress_router.Manager.Fetch.{passes, body_limit, secure_redirect, follow, fetch}
use egress_router.Manager.Gather.{
  Gathered, start, base_tags, check_names, skip_node, add_node, gather_nodes, is_group, with_tags,
  splice,
}
use egress_router.Manager.Files.{write_error, fill, replace_file, write_json_atomic, read_state}
use egress_router.Manager.Build.{
  gather_body, gather_providers, validate, write_state, roll_back, commit, publish_candidate,
  publish, read_base, build_state,
}
use egress_router.Manager.Update.{replace_subscription, transaction, Service, update}
use egress_router.Manager.Service.{
  update-IsUpdated, update_failed, update-IsRestored, update-Kept, url_of,
  replace_subscription-url_of,
}
use egress_router.Tests.Samples.{
  parse_url, raw_node, node_item, health, short-IsPlain, platform, config, subscription, good_world,
  bad_world, service_in, output-IsPlain, state-IsPlain, apart,
}

abbrev one_node : Report
one_node = record { nodes = 1; errors = []; skipped_nodes = 0 }

-- The body is not read: it is the subscription of the samples.
abbrev decode : Text → Option (Subscription × Bool)
decode _ = some (subscription, true)

abbrev request_to : Text → Request
request_to path = record {
  method = lit "POST";
  path = path;
  content_length = some 2;
  body = lit "{}";
}

abbrev removal : Request
removal = record {
  method = lit "DELETE";
  path = lit "/subscriptions";
  content_length = none;
  body = [];
}

abbrev good : Service
good = service_in good_world

abbrev bad : Service
bad = service_in bad_world

-- There is a state file, and writing a file fails half-way.
abbrev full_world : World
full_world = record good_world {
  files = λ p. if p == lit "s" then some (record { content = lit "S"; mode = 0o600 }) else none;
  plan = λ n. if n == 3 then fails (lit "half") else goes (lit "r");
}

abbrev gathered : Gathered
gathered = record {
  tags = lit "sub-n-n-1" ∷ lit "direct" ∷ [];
  seen = lit "h" ∷ [];
  outbounds = node_item (lit "sub-n-n-1") ∷ [];
  warnings = [];
  skipped = 0;
}

runs :
    ((update platform config (some subscription) good).1 ≡ ok one_node)
    × ((update platform config (some subscription) bad).1 ≡ err (fetch_failed 1))
    × ((handler platform config decode (request_to (lit "/subscriptions")) good).1.status ≡ 200)
    × ((handler platform config decode (request_to (lit "/subscriptions")) bad).1.status ≡ 400)
    × ((gather_providers platform (subscription ∷ []) 0 (start (lit "direct" ∷ [])) good_world).1
        ≡ ok gathered)
    × ((fetch parse_url (lit "https://h") good_world).1 ≡ some raw_node)
    × ((write_json_atomic platform config.state [] good_world).1 ≡ ok tt)
    × ((write_json_atomic platform config.state [] full_world).1 ≡ err write_error)
unfolding dir clean reduce up_to_slash update transaction read_state build_state read_base
    gather_providers gather_body gather_nodes base_tags check_names skip_node add_node publish
    publish_candidate validate write_state write_json_atomic replace_file fill commit roll_back
    mkdir_all chmod write close remove rename create_temp read_file request follow fetch
    secure_redirect splice with_tags is_group node_tag fragment node_name replace_from parse_uri
    parse_parsed decode_body entries get put erase items elems decode_base64 unescape parse_query
    query_get query_set protocol_of put_if query_bool allowed_fingerprint with_utls reality_from
    with_reality with_options tls_map tls_from transport_from check_query credentials_of require_tls
    with_tls with_transport vless_flow with_credentials lit text_beq has_prefix contains_text split
    join cut space_width last_space_width drop_spaces trim_space fields_from fields to_lower
    equal_fold trim contains_any atoi digits_value decimal replace_subscription handler post checked
runs = (refl, refl, refl, refl, refl, refl, refl, refl)

update-IsUpdated_example :
    IsUpdated platform config
      (some subscription)
      one_node
      good_world
      (update platform config (some subscription) good).0.world
update-IsUpdated_example =
    update-IsUpdated platform config (some subscription) good output-IsPlain state-IsPlain apart
      runs.0

update_failed_example :
    (update platform config (some subscription) bad).0.world.files config.output
    ≡ bad_world.files config.output
update_failed_example =
    update_failed platform config (some subscription) bad output-IsPlain apart runs.1

update-IsRestored_example :
    IsRestored platform config bad_world
      (update platform config (some subscription) bad).0.world
      (fetch_failed 1)
update-IsRestored_example = update-IsRestored platform config subscription bad state-IsPlain runs.1

base_apart : (lit "b" ≢ config.state) × (lit "b" ≢ config.output) × IsPlain (lit "b")
unfolding lit
base_apart = ((λ e. ground (arith, e)), (λ e. ground (arith, e)), short-IsPlain b'b')

update-Kept_example :
    (update platform config (some subscription) good).0.world.files (lit "b")
    ≡ good_world.files (lit "b")
update-Kept_example =
    update-Kept platform config (some subscription) good (lit "b") base_apart.2 base_apart.0
      base_apart.1

gather_providers-IsGathered_example : IsGathered platform (lit "direct" ∷ []) gathered
gather_providers-IsGathered_example =
    gather_providers-IsGathered platform (subscription ∷ []) (lit "direct" ∷ []) good_world gathered
      runs.4

refused : (handler platform config decode (request_to (lit "/subscriptions")) bad).1.status ≢ 200
refused e = omega (arith, e, runs.3)

handler_failed_example :
    (handler platform config decode (request_to (lit "/subscriptions")) bad).0.world.files
      config.output
    ≡ bad_world.files config.output
handler_failed_example =
    handler_failed platform config decode (request_to (lit "/subscriptions")) bad output-IsPlain
      apart refused

no_post : removal.method ≢ lit "POST"
unfolding lit
no_post e = ground (arith, e)

handler_read_only_example :
    ((handler platform config decode removal good).0.world.files (lit "b")
      ≡ good_world.files (lit "b"))
    × ((handler platform config decode removal good).0.health ≡ health)
handler_read_only_example = handler_read_only platform config decode removal good (lit "b") no_post

handler-IsAdded_example :
    (payload : Subscription) × IsAdded platform config good
      (handler platform config decode (request_to (lit "/subscriptions")) good).0
      payload
handler-IsAdded_example =
    handler-IsAdded platform config decode (request_to (lit "/subscriptions")) good refl refl runs.2

health_of-update_example :
    (health_of (update platform config none bad).0.health).status
    ≡ (if passes (update platform config none bad).1 then 200 else 503)
health_of-update_example = health_of-update platform config none bad

replace_subscription-url_of_example :
    url_of (lit "n") (replace_subscription subscription [])
    ≡ (if lit "n" == subscription.name then some subscription.url else url_of (lit "n") [])
replace_subscription-url_of_example = replace_subscription-url_of subscription [] (lit "n")

follow_secure_example :
    AreSecure parse_url 0 (follow parse_url (10 + 5) 0 (lit "https://h") good_world).2
    × (follow parse_url (10 + 5) 0 (lit "https://h") good_world
        ≡ follow parse_url 10 0 (lit "https://h") good_world)
follow_secure_example = follow_secure parse_url 5 (lit "https://h") good_world

fetch-length_example : length raw_node ≤ body_limit
fetch-length_example = fetch-length parse_url (lit "https://h") good_world runs.5

write_json_atomic_failed_example :
    (write_json_atomic platform config.state [] full_world).0.files config.state
    ≡ full_world.files config.state
write_json_atomic_failed_example =
    write_json_atomic_failed platform config.state [] full_world state-IsPlain runs.7

write_json_atomic-done_example :
    (write_json_atomic platform config.state [] good_world).0.files config.state
    ≡ some (state_file platform config.state [])
write_json_atomic-done_example =
    write_json_atomic-done platform config.state [] good_world state-IsPlain runs.6

-- No variable is set.
abbrev unset : Environment
unset _ = []

abbrev default_settings : Settings
default_settings = record {
  config = record {
    base = lit "/data/base-config.json";
    output = lit "/data/runtime/config.json";
    state = lit "/data/state/subscriptions.json";
  };
  interval = 3600000000000;
  port = 19091;
}

unset-new_manager : new_manager unset ≡ ok default_settings
unfolding new_manager settings_of env atoi digits_value lit text_beq
unset-new_manager = refl

new_manager_bounds_example :
    (second ≤ 3600000000000) × (3600000000000 ≤ max_int64) × (1 ≤ 19091) × (19091 ≤ 65535)
new_manager_bounds_example = new_manager_bounds unset unset-new_manager
