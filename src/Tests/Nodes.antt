-- ===== src/Tests/Nodes.antt =====
-- The parser of node URIs on a sample.
use egress_router.Common.{
  some, [], ◌∷◌, ◌≡◌, refl, lit, text_beq, has_prefix, contains_text, split, join, cut, to_lower,
  equal_fold, contains_any, atoi, digits_value, ok, result_map,
}
use egress_router.Common.Json.{get, put, erase, items, elems}
use egress_router.Url.{Values, unescape, parse_query, query_get, query_set}
use egress_router.Node.{
  protocol_of, put_if, query_bool, allowed_fingerprint, with_utls, reality_from, with_reality,
  with_options, tls_map, tls_from, transport_from, check_query, credentials_of, require_tls,
  with_tls, with_transport, parse_parsed, parse_uri, vless_flow, with_credentials,
}
use egress_router.Node.WellFormed.{IsNode, parse_uri-IsNode}
use egress_router.Node.SameNode.{parse_uri-erase}
use egress_router.Node.Reality.{HasReality, parse_uri-HasReality}
use egress_router.Tests.Samples.{parse_url, raw_node, node_url, node_item}

abbrev node_query : Values
node_query = (lit "security", lit "reality") ∷ (lit "pbk", lit "K") ∷ []

parses :
    (parse_uri parse_url raw_node (lit "t") ≡ ok (node_item (lit "t")))
    × (parse_query node_url.raw_query ≡ some node_query)
    × (query_get node_query (lit "security") ≡ lit "reality")
    × (parse_url raw_node ≡ some node_url)
unfolding parse_uri parse_parsed get put erase items elems unescape parse_query query_get query_set
    protocol_of put_if query_bool allowed_fingerprint with_utls reality_from with_reality
    with_options tls_map tls_from transport_from check_query credentials_of require_tls with_tls
    with_transport vless_flow with_credentials lit text_beq has_prefix contains_text split join cut
    to_lower equal_fold contains_any atoi digits_value
parses = (refl, refl, refl, refl)

parse_uri-IsNode_example : IsNode (lit "t") (node_item (lit "t"))
parse_uri-IsNode_example = parse_uri-IsNode parse_url raw_node (lit "t") parses.0

parse_uri-erase_example :
    result_map (erase "tag") (parse_uri parse_url raw_node (lit "t"))
    ≡ result_map (erase "tag") (parse_uri parse_url raw_node (lit "u"))
parse_uri-erase_example = parse_uri-erase parse_url raw_node (lit "t") (lit "u")

parse_uri-HasReality_example : HasReality node_query (node_item (lit "t"))
parse_uri-HasReality_example =
    parse_uri-HasReality parse_url raw_node (lit "t") node_query parses.3 parses.1 parses.2 parses.0
