-- ===== src/Node/Accepted.antt =====
-- The steps of a run of `parseURI` that returns an item, and what its last steps do.
use egress_router.Common.{
  ℕ, Bool, true, false, ◌||◌, some, [], String, Text, lit, ◌==◌, string_eq, text_beq_iff, text_eq,
  ok, >>=-eq-ok, or_err, or_err-eq-ok, reject, ◌≡◌, refl, arith, atoi, within, to_lower,
}
use egress_router.Common.Json.{bool, Map, get, get-put}
use egress_router.Url.{UserInfo, Url, Values, query_get, parse_query}
use egress_router.Node.Defs.{
  unsupported_format, missing_server_or_port, invalid_query, invalid_port, Protocol, vless,
  shadowsocks, protocol_of, needs_tls, refuses_transport,
}
use egress_router.Node.Options.{
  get-put_if, with_utls, with_reality, with_options, tls_map, tls_from,
}
use egress_router.Node.Credentials.{with_credentials}
use egress_router.Node.Parse.{
  check_query, credentials_of, require_tls, with_tls, with_transport, base_item, parse_parsed,
}

-- The values that a successful run passes through.
pub record Steps (url : Url) (tag : Text) (item : Map) : Type 0 where
  pub p : Protocol
  pub q : Values
  pub q' : Values
  pub port : ℕ
  pub user : UserInfo
  pub item' : Map
  pub scheme : protocol_of (to_lower url.scheme) ≡ some p
  pub located : (url.hostname == [] || url.port == []) ≡ false
  pub query : parse_query url.raw_query ≡ some q
  pub checked : check_query q ≡ ok tt
  pub numbered : within 1 65535 (atoi url.port) ≡ some port
  pub named : credentials_of url ≡ ok user
  pub filled : with_credentials p user q (base_item tag url.hostname port) ≡ ok item'
  pub secured : require_tls p q ≡ ok q'
  pub carried : with_transport p q' (with_tls q' item') ≡ ok item

reject-false : {E : Type 0} (b : Bool) (e : E) {u : Unit {0}} → reject b e ≡ ok u → b ≡ false
reject-false true e h = ground arith
reject-false false e h = refl

pub parse_parsed-Steps :
    (url : Url) (tag : Text) {item : Map} → parse_parsed url tag ≡ ok item → Steps url tag item
unfolding parse_parsed
parse_parsed-Steps url tag {item} h =
    let (p, e1, h1) =
      >>=-eq-ok (or_err (protocol_of (to_lower url.scheme)) unsupported_format) _ h in
    let (u2, e2, h2) =
      >>=-eq-ok (reject (url.hostname == [] || url.port == []) missing_server_or_port) _ h1 in
    let (q, e3, h3) = >>=-eq-ok (or_err (parse_query url.raw_query) invalid_query) _ h2 in
    let (u4, e4, h4) = >>=-eq-ok (check_query q) _ h3 in
    let (port, e5, h5) = >>=-eq-ok (or_err (within 1 65535 (atoi url.port)) invalid_port) _ h4 in
    let (user, e6, h6) = >>=-eq-ok (credentials_of url) _ h5 in
    let (item', e7, h7) =
      >>=-eq-ok (with_credentials p user q (base_item tag url.hostname port)) _ h6 in
    let (q', e8, h8) = >>=-eq-ok (require_tls p q) _ h7 in
    record {
      p = p;
      q = q;
      q' = q';
      port = port;
      user = user;
      item' = item';
      scheme = or_err-eq-ok _ _ e1;
      located = reject-false _ _ e2;
      query = or_err-eq-ok _ _ e3;
      checked = e4;
      numbered = or_err-eq-ok _ _ e5;
      named = e6;
      filled = e7;
      secured = e8;
      carried = h8;
    }

pub tls_map-enabled : (q : Values) (s : Text) → get "enabled" (tls_map q s) ≡ some (bool true)
unfolding tls_map with_utls with_reality with_options
tls_map-enabled q s = grind (arith, get-put, get-put_if)

pub tls_from_of_tls :
    (q : Values)
    → query_get q (lit "security") ≡ lit "tls"
    → tls_from q ≡ some (tls_map q (lit "tls"))
unfolding tls_from
tls_from_of_tls q h = ground (arith, text_beq_iff (query_get q (lit "security")) (lit "tls"))

pub require_tls-security :
    (p : Protocol) (q : Values) {q' : Values}
    → needs_tls p ≡ true
    → require_tls p q ≡ ok q'
    → query_get q' (lit "security") ≡ lit "tls"
unfolding require_tls
require_tls-security vless q n h = ground arith
require_tls-security shadowsocks q n h = ground arith
require_tls-security p q n h = grind (arith, text_beq_iff)

pub with_transport-keeps :
    (p : Protocol) (q : Values) (item : Map) (k : String) {item' : Map}
    → with_transport p q item ≡ ok item'
    → ("transport" == k) ≡ false
    → get k item' ≡ get k item
unfolding with_transport
with_transport-keeps p q item k h c = grind (arith, get-put)

pub with_transport_refused :
    (p : Protocol) (q : Values) (item : Map) {item' : Map}
    → with_transport p q item ≡ ok item'
    → refuses_transport p ≡ true
    → item' ≡ item
unfolding with_transport
with_transport_refused p q item h c = ground arith

pub with_tls-keeps :
    (q : Values) (item : Map) (k : String)
    → ("tls" == k) ≡ false
    → get k (with_tls q item) ≡ get k item
unfolding with_tls
with_tls-keeps q item k c = grind (arith, get-put)
