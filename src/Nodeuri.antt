-- ===== src/Nodeuri.antt =====
-- catalog-client/internal/nodeuri/parse.go, a frozen copy of the URI parser of subscription-manager:
-- its functions have the same text, so each is the function modelled there.
use egress_router.Common.{Bool, Option, List, Text, Result}
use egress_router.Common.Json.{Map}
use egress_router.Url.{Values}
use egress_router.Node.{NodeError, ParseUrl}
use egress_router.Base64
use egress_router.Node

abbrev decode_base64 : Text → Option Text
decode_base64 = Base64.decode_base64

abbrev query_bool : Values → List Text → Bool
query_bool = Node.query_bool

abbrev tls_from : Values → Option Map
tls_from = Node.tls_from

abbrev transport_from : Values → Result NodeError (Option Map)
transport_from = Node.transport_from

-- `ParseURI`
abbrev parse_uri : ParseUrl → Text → Text → Result NodeError Map
parse_uri = Node.parse_uri
