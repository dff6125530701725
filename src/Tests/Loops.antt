-- ===== src/Tests/Loops.antt =====
-- The service loop and the contract of `update` on samples.
use egress_router.Common.{
  Bool, true, Option, none, some, [], ◌∷◌, ◌++◌, map, ◌≡◌, ◌⊎◌, refl, ap, sym, ◌∙◌, arith, Text,
  lit, All, if◌then◌else◌, ◌==◌, nat_eq, ok, false, text_beq, has_prefix, contains_text, split,
  join, cut, space_width, last_space_width, drop_spaces, trim_space, fields_from, fields, to_lower,
  equal_fold, trim, contains_any, atoi, digits_value, decimal,
}
use mathlib.Core.Path.{subst}
use egress_router.Manager.Defs.{Subscription, State, Platform}
use egress_router.Manager.Update.{Service, update, replace_subscription, transaction}
use egress_router.Manager.Loop.{Loop, started, begin_run, Reach, here, next, build}
use egress_router.Manager.Running.{IsSingle, Reach-IsSingle, CanRefresh, Reach-CanRefresh}
use egress_router.Manager.Served.{IsServed, Reach-IsSafe}
use egress_router.Common.Json.{get, put, erase, items, elems}
use egress_router.Base64.{decode_base64}
use egress_router.Url.{unescape, parse_query, query_get, query_set}
use egress_router.Node.{
  protocol_of, put_if, query_bool, allowed_fingerprint, with_utls, reality_from, with_reality,
  with_options, tls_map, tls_from, transport_from, check_query, credentials_of, require_tls,
  with_tls, with_transport, parse_parsed, parse_uri, vless_flow, with_credentials,
}
use egress_router.Feed.{entries, decode_body}
use egress_router.Paths.{reduce, clean, up_to_slash, dir}
use egress_router.System.{
  mkdir_all, chmod, write, close, remove, rename, create_temp, read_file, request,
}
use egress_router.Manager.Gather.{
  base_tags, check_names, skip_node, add_node, gather_nodes, is_group, with_tags, splice,
}
use egress_router.Manager.Files.{fill, replace_file, write_json_atomic, read_state}
use egress_router.Manager.Build.{
  gather_body, gather_providers, validate, write_state, roll_back, commit, publish_candidate,
  publish, read_base, build_state,
}
use egress_router.Manager.Names.{replace_from, node_name, fragment, node_tag}
use egress_router.Manager.Fetch.{passes, secure_redirect, follow, fetch}
use egress_router.Manager.Handler.{health_of}
use egress_router.Manager.Replies.{health_of-update}
use egress_router.Manager.Ready.{Reach-IsReady}
use egress_router.Manager.Contract.{view, Promised, IsCodec, update-Promised}
use egress_router.Tests.Samples.{
  platform, config, subscription, good_world, service_in, output-IsPlain, state-IsPlain, apart,
}

abbrev decode : Text → Option (Subscription × Bool)
decode _ = some (subscription, true)

abbrev good : Service
good = service_in good_world

-- The first refresh has been built.
abbrev built_once : Loop
built_once = record (started good) {
  service = (update platform config none good).0;
  building = 0;
  built = 1;
}

begun : begin_run 1000000000 true good ≡ ok (started good)
unfolding begin_run
begun = refl

reached : Reach platform config decode (started good) built_once
reached = next here (build (omega arith) refl)

Reach-IsSingle_example : IsSingle built_once
Reach-IsSingle_example = Reach-IsSingle platform config decode 1000000000 true good begun reached

Reach-CanRefresh_example : CanRefresh platform config decode built_once
Reach-CanRefresh_example =
    Reach-CanRefresh platform config decode 1000000000 true good begun reached refl

Reach-IsSafe_example :
    (built_once.service.world.files config.output ≡ good_world.files config.output)
    ⊎ IsServed platform config decode built_once.service.world
Reach-IsSafe_example =
    Reach-IsSafe platform config decode output-IsPlain state-IsPlain apart reached

-- There is no subscription yet: a refresh writes the base config.
refreshes :
    (update platform config none good).1 ≡ ok (record { nodes = 0; errors = []; skipped_nodes = 0 })
unfolding dir clean reduce up_to_slash update transaction read_state build_state read_base
    gather_providers gather_body gather_nodes base_tags check_names skip_node add_node publish
    publish_candidate validate write_state write_json_atomic replace_file fill commit roll_back
    mkdir_all chmod write close remove rename create_temp read_file request follow fetch
    secure_redirect splice with_tags is_group node_tag fragment node_name replace_from parse_uri
    parse_parsed decode_body entries get put erase items elems decode_base64 unescape parse_query
    query_get query_set protocol_of put_if query_bool allowed_fingerprint with_utls reality_from
    with_reality with_options tls_map tls_from transport_from check_query credentials_of require_tls
    with_tls with_transport vless_flow with_credentials lit text_beq has_prefix contains_text split
    join cut space_width last_space_width drop_spaces trim_space fields_from fields to_lower
    equal_fold trim contains_any atoi digits_value decimal replace_subscription
refreshes = refl

ready : (health_of built_once.service.health).status ≡ 200
ready =
    health_of-update platform config none good ∙ ap (λ r. if passes r then 200 else 503) refreshes

Reach-IsReady_example : IsServed platform config decode built_once.service.world
Reach-IsReady_example =
    Reach-IsReady platform config decode output-IsPlain state-IsPlain apart reached refl ready

-- A codec of states with the sample as their only subscription: a byte for each.
abbrev decoded : Text → State
decoded [] = []
decoded (c ∷ s) = if c == 10 then decoded s else subscription ∷ decoded s

abbrev codec_platform : Platform
codec_platform = record platform {
  encode_state = λ s. map (λ _. 97) s;
  decode_state = λ s. some (decoded s);
}

abbrev IsSample : Subscription → Type 0
IsSample sub = sub ≡ subscription

decoded-map : (s : State) → All IsSample s → decoded (map (λ _. 97) s ++ lit "\n") ≡ s
unfolding lit
decoded-map [] h = refl
decoded-map (sub ∷ s) (e, h) =
    ap (λ x. x ∷ decoded (map (λ _. 97) s ++ lit "\n")) (sym e)
    ∙ ap (λ l. sub ∷ l) (decoded-map s h)

decoded-All : (s : Text) → All IsSample (decoded s)
decoded-All [] = tt
decoded-All (c ∷ s) =
    elim (c == 10) as (λ b. All IsSample (if b then decoded s else subscription ∷ decoded s)) [
      | true ↦ decoded-All s
      | false ↦ (refl, decoded-All s)
    ]

codec : IsCodec codec_platform IsSample
codec = record {
  reads = λ s h. ap some (decoded-map s h);
  text = λ c s h. subst (All IsSample) (of_some h) (decoded-All c);
}
  where
    of_some : {a b : State} → some a ≡ some b → a ≡ b
    of_some e = cc e

update-Promised_example :
    Promised codec_platform
      (some subscription)
      (view codec_platform config good_world)
      (view codec_platform config (update codec_platform config (some subscription) good).0.world)
      (update codec_platform config (some subscription) good).1
update-Promised_example =
    update-Promised codec_platform config IsSample codec output-IsPlain state-IsPlain apart good
      (some subscription) refl
