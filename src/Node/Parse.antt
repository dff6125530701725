-- ===== src/Node/Parse.antt =====
-- `parseURI`
use egress_router.Common.{
  ℕ, ◌&&◌, ◌||◌, not, Option, none, some, [], Text, lit, ◌==◌, text_eq, if◌then◌else◌, to_lower,
  atoi, within, Result, ok, err, ◌>>=◌, ◌>>◌, reject, or_err,
}
use egress_router.Common.Json.{int, str, obj, Map, empty, put}
use egress_router.Url.{UserInfo, Url, Values, query_get, query_set, parse_query}
use egress_router.Node.Defs.{
  NodeError, invalid_uri, unsupported_format, missing_server_or_port, invalid_query,
  unsupported_security, reality_requires_key, unsupported_plugin, invalid_port, missing_credentials,
  requires_tls, transport_unsupported, Protocol, protocol_of, needs_tls, refuses_transport,
}
use egress_router.Node.Options.{nonempty, tls_from, transport_from}
use egress_router.Node.Credentials.{with_credentials}

-- The checks of the query that come before the port.
unfoldable pub check_query : Values → Result NodeError (Unit {0})
check_query q =
    let security = query_get q (lit "security") in
    do
      reject
          (nonempty security
            && (not (security == lit "none")
                && (not (security == lit "tls") && not (security == lit "reality"))))
          unsupported_security
      reject (security == lit "reality" && query_get q (lit "pbk") == []) reality_requires_key
      reject (nonempty (query_get q (lit "plugin")) || nonempty (query_get q (lit "network")))
          unsupported_plugin

-- The user part, where it names a user.
unfoldable pub credentials_of : Url → Result NodeError UserInfo
credentials_of url = elim url.user [
  | none ↦ err missing_credentials
  | some u ↦ if u.username == [] then err missing_credentials else ok u
]

abbrev tls_by_default : Values → Values
tls_by_default q =
    if query_get q (lit "security") == [] then query_set (lit "security") (lit "tls") q else q

-- The query with TLS as the default of the protocols that need it.
unfoldable pub require_tls : Protocol → Values → Result NodeError Values
require_tls p q =
    if needs_tls p
    then (if query_get (tls_by_default q) (lit "security") == lit "tls"
        then ok (tls_by_default q)
        else err requires_tls)
    else ok q

unfoldable pub with_tls : Values → Map → Map
with_tls q item = elim (tls_from q) [ none ↦ item | some tls ↦ put "tls" (obj tls) item ]

unfoldable pub with_transport : Protocol → Values → Map → Result NodeError Map
with_transport p q item = do
  found ← transport_from q
  elim found [
    | none ↦ ok item
    | some transport ↦ do
      reject (refuses_transport p) transport_unsupported
      ok (put "transport" (obj transport) item)
  ]

-- The item before the second switch.
abbrev pub base_item : Text → Text → ℕ → Map
base_item tag server port =
    put "server_port" (int port) (put "server" (str server) (put "tag" (str tag) empty))

-- The steps of `parseURI` behind `url.Parse`.
unfoldable pub parse_parsed : Url → Text → Result NodeError Map
parse_parsed url tag = do
  p ← or_err (protocol_of (to_lower url.scheme)) unsupported_format
  reject (url.hostname == [] || url.port == []) missing_server_or_port
  q ← or_err (parse_query url.raw_query) invalid_query
  check_query q
  port ← or_err (within 1 65535 (atoi url.port)) invalid_port
  user ← credentials_of url
  item ← with_credentials p user q (base_item tag url.hostname port)
  q' ← require_tls p q
  with_transport p q' (with_tls q' item)

-- url.Parse: `none` is an error.
abbrev pub ParseUrl : Type 0
ParseUrl = Text → Option Url

unfoldable pub parse_uri : ParseUrl → Text → Text → Result NodeError Map
parse_uri parse_url raw tag = do url ← or_err (parse_url raw) invalid_uri; parse_parsed url tag
