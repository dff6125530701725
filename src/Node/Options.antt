-- ===== src/Node/Options.antt =====
-- The TLS and transport settings that a node's query asks for.
use egress_router.Common.{
  Bool, true, false, ◌&&◌, ◌||◌, not, Option, none, some, List, [], ◌∷◌, map, String, Text, lit,
  ◌==◌, text_eq, if◌then◌else◌, contains, contains_text, split, equal_fold, Result, ok, err, ◌≡◌,
  refl, string_eq,
}
use egress_router.Common.Json.{Value, bool, str, arr, obj, Map, empty, get, put, items, get-put}
use egress_router.Url.{Values, query_get, path_unescape}
use egress_router.Node.Defs.{NodeError, invalid_ws_path, unsupported_transport}

-- `if test { m[k] = v }`
unfoldable pub put_if : Bool → String → Value → Map → Map
put_if b k v m = if b then put k v m else m

pub get-put_if :
    (b : Bool) (k j : String) (v : Value) (m : Map)
    → get j (put_if b k v m) ≡ (if b && k == j then some v else get j m)
unfolding put_if
get-put_if true k j v m = get-put k j v m
get-put_if false k j v m = refl

abbrev pub nonempty : Text → Bool
nonempty s = not (s == [])

unfoldable pub query_bool : Values → List Text → Bool
query_bool q [] = false
query_bool q (name ∷ names) =
    (query_get q name == lit "1" || equal_fold (query_get q name) (lit "true"))
    || query_bool q names

abbrev fingerprints : List Text
fingerprints =
    lit "chrome" ∷ lit "firefox" ∷ lit "safari" ∷ lit "ios" ∷ lit "android" ∷ lit "edge" ∷ []

-- The `fp` setting, or "" if it is not allowed.
unfoldable pub allowed_fingerprint : Values → Text
allowed_fingerprint q =
    let fp = query_get q (lit "fp") in if contains fingerprints fp then fp else []

unfoldable pub with_utls : Values → Text → Map → Map
with_utls q security result =
    let fp = allowed_fingerprint q in
    put_if (nonempty fp || security == lit "reality") "utls"
      (obj (
        put "fingerprint" (str (if nonempty fp then fp else lit "chrome"))
          (put "enabled" (bool true) empty)))
      result

unfoldable pub reality_from : Values → Map
reality_from q =
    let sid = query_get q (lit "sid") in
    put_if (nonempty sid) "short_id" (str sid)
      (put "public_key" (str (query_get q (lit "pbk"))) (put "enabled" (bool true) empty))

unfoldable pub with_reality : Values → Text → Map → Map
with_reality q security result =
    put_if (security == lit "reality" && nonempty (query_get q (lit "pbk"))) "reality"
      (obj (reality_from q)) result

unfoldable pub with_options : Values → Map → Map
with_options q result =
    let sni = query_get q (lit "sni") in
    let alpn = query_get q (lit "alpn") in
    put_if (query_bool q (lit "insecure" ∷ lit "allowInsecure" ∷ [])) "insecure" (bool true) (
      put_if (nonempty alpn) "alpn" (arr (items (map str (split b',' alpn))))
        (put_if (nonempty sni) "server_name" (str sni) result))

unfoldable pub tls_map : Values → Text → Map
tls_map q security =
    with_reality q security
      (with_utls q security (with_options q (put "enabled" (bool true) empty)))

-- `tlsFrom`; `none` is the nil map
unfoldable pub tls_from : Values → Option Map
tls_from q =
    let security = query_get q (lit "security") in
    if security == lit "tls" || security == lit "reality" then some (tls_map q security) else none

abbrev escape_ok : Text → Bool
escape_ok path =
    if contains_text path (lit "%")
    then elim (path_unescape path) [ none ↦ false | some _ ↦ true ]
    else true

unfoldable pub ws_transport : Values → Map
ws_transport q =
    let path = query_get q (lit "path") in
    let host = query_get q (lit "host") in
    put_if (nonempty host) "headers" (obj (put "Host" (str host) empty))
      (put_if (nonempty path) "path" (str path) (put "type" (str (lit "ws")) empty))

unfoldable pub grpc_transport : Values → Map
grpc_transport q =
    let name = query_get q (lit "serviceName") in
    put_if (nonempty name) "service_name" (str name) (put "type" (str (lit "grpc")) empty)

-- `transportFrom`; `ok none` is a nil map without an error
unfoldable pub transport_from : Values → Result NodeError (Option Map)
transport_from q =
    let kind = query_get q (lit "type") in
    if kind == lit "ws"
    then if escape_ok (query_get q (lit "path"))
      then ok (some (ws_transport q))
      else err invalid_ws_path
    else if kind == lit "grpc"
    then ok (some (grpc_transport q))
    else if kind == [] || kind == lit "tcp"
    then ok none
    else err unsupported_transport
