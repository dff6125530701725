-- ===== src/Node/WellFormed.antt =====
-- Every item that `parseURI` returns is a usable outbound.
use egress_router.Common.{
  ℕ, ◌≤◌, true, false, ◌||◌, none, some, [], String, Text, lit, ◌==◌, string_eq, text_beq_iff,
  text_eq, contains, ok, >>=-eq-ok, or_err, ◌≡◌, ◌≢◌, ◌⊎◌, refl, ◌∙◌, arith, inl, inr, Bool-cases,
  Option-cases, atoi, within_bounds,
}
use egress_router.Common.Json.{bool, int, str, obj, Map, get, get-put}
use egress_router.Url.{UserInfo, Url, Values}
use egress_router.Node.Defs.{
  invalid_uri, Protocol, vless, trojan, hysteria2, shadowsocks, type_name, needs_tls,
  refuses_transport,
}
use egress_router.Node.Options.{tls_map, tls_from}
use egress_router.Node.Parse.{credentials_of, with_tls, base_item, ParseUrl, parse_uri}
use egress_router.Node.Kept.{
  credential_keys, with_credentials-keeps, with_credentials-type, HasSecret,
  with_credentials-HasSecret,
}
use egress_router.Node.Accepted.{
  Steps, parse_parsed-Steps, tls_map-enabled, tls_from_of_tls, require_tls-security,
  with_transport-keeps, with_transport_refused, with_tls-keeps,
}

-- An item with enabled TLS settings.
pub record HasTls (item : Map) : Type 0 where
  pub tls : Map
  pub found : get "tls" item ≡ some (obj tls)
  pub enabled : get "enabled" tls ≡ some (bool true)

-- A sing-box outbound with the fields that its protocol needs.
pub record IsNode (tag : Text) (item : Map) : Type 0 where
  pub p : Protocol
  pub server : Text
  pub port : ℕ
  pub tagged : get "tag" item ≡ some (str tag)
  pub located : get "server" item ≡ some (str server)
  pub named : server ≢ []
  pub numbered : get "server_port" item ≡ some (int port)
  pub low : 1 ≤ port
  pub high : port ≤ 65535
  pub typed : get "type" item ≡ some (str (type_name p))
  pub secret : HasSecret p item
  pub secured : (needs_tls p ≡ false) ⊎ HasTls item
  pub direct : (refuses_transport p ≡ false) ⊎ (get "transport" item ≡ none)

HasSecret-keeps :
    (p : Protocol) (item item' : Map)
    → get "uuid" item' ≡ get "uuid" item
    → get "method" item' ≡ get "method" item
    → get "password" item' ≡ get "password" item
    → HasSecret p item
    → HasSecret p item'
HasSecret-keeps vless item item' a b c (s, e, n) = (s, a ∙ e, n)
HasSecret-keeps trojan item item' a b c (s, e, n) = (s, c ∙ e, n)
HasSecret-keeps hysteria2 item item' a b c (s, e, n) = (s, c ∙ e, n)
HasSecret-keeps shadowsocks item item' a b c (m, s, e, e', k) = (m, s, b ∙ e, c ∙ e', k)

credentials_of-named : (url : Url) {u : UserInfo} → credentials_of url ≡ ok u → u.username ≢ []
unfolding credentials_of
credentials_of-named url {u} h = elim (Option-cases url.user) [
  | inl e ↦ ground arith
  | inr (v, e) ↦ ground (arith, text_beq_iff v.username [])
]

hostname-ne-nil : (url : Url) → (url.hostname == [] || url.port == []) ≡ false → url.hostname ≢ []
hostname-ne-nil url h = ground (arith, text_beq_iff url.hostname [])

pub with_tls-found :
    (q : Values) (item : Map) {tls : Map}
    → tls_from q ≡ some tls
    → get "tls" (with_tls q item) ≡ some (obj tls)
unfolding with_tls
with_tls-found q item h = rw (h, with_tls) (simp get-put)

module _ {url : Url} {tag : Text} {item : Map} (s : Steps url tag item) where
  -- The last two steps touch `tls` and `transport` alone.
  late-keeps :
      (k : String) → ("transport" == k) ≡ false → ("tls" == k) ≡ false → get k item ≡ get k s.item'
  late-keeps k a b =
      with_transport-keeps s.p s.q' (with_tls s.q' s.item') k s.carried a
      ∙ with_tls-keeps s.q' s.item' k b

  base-keeps :
      (k : String)
      → ("transport" == k) ≡ false
      → ("tls" == k) ≡ false
      → contains credential_keys k ≡ false
      → get k item ≡ get k (base_item tag url.hostname s.port)
  base-keeps k a b c = late-keeps k a b ∙ with_credentials-keeps s.p s.user s.q _ k s.filled c

  Steps-secured : (needs_tls s.p ≡ false) ⊎ HasTls item
  Steps-secured = elim (Bool-cases (needs_tls s.p)) [
    | inl n ↦
        let made = tls_from_of_tls s.q' (require_tls-security s.p s.q n s.secured) in
        inr (record {
          tls = tls_map s.q' (lit "tls");
          found =
              with_transport-keeps s.p s.q' (with_tls s.q' s.item') "tls" s.carried refl
              ∙ with_tls-found s.q' s.item' made;
          enabled = tls_map-enabled s.q' (lit "tls");
        })
    | inr n ↦ inl n
  ]

  Steps-direct : (refuses_transport s.p ≡ false) ⊎ (get "transport" item ≡ none)
  unfolding get
  Steps-direct = elim (Bool-cases (refuses_transport s.p)) [
    | inl n ↦ inr (
        rw (with_transport_refused s.p s.q' (with_tls s.q' s.item') s.carried n) (
          with_tls-keeps s.q' s.item' "transport" refl
          ∙ with_credentials-keeps s.p s.user s.q _ "transport" s.filled refl
          ∙ simp get-put))
    | inr n ↦ inl n
  ]

  Steps-IsNode : IsNode tag item
  Steps-IsNode = record {
    p = s.p;
    server = url.hostname;
    port = s.port;
    tagged = base-keeps "tag" refl refl refl ∙ simp get-put;
    located = base-keeps "server" refl refl refl ∙ simp get-put;
    named = hostname-ne-nil url s.located;
    numbered = base-keeps "server_port" refl refl refl ∙ simp get-put;
    low = (within_bounds 1 65535 (atoi url.port) s.numbered).0;
    high = (within_bounds 1 65535 (atoi url.port) s.numbered).1;
    typed = late-keeps "type" refl refl ∙ with_credentials-type s.p s.user s.q _ s.filled;
    secret =
        HasSecret-keeps s.p s.item' item (late-keeps "uuid" refl refl)
          (late-keeps "method" refl refl) (late-keeps "password" refl refl)
          (with_credentials-HasSecret s.p s.user s.q _ (credentials_of-named url s.named) s.filled);
    secured = Steps-secured;
    direct = Steps-direct;
  }

-- Every item that `parse_uri` returns, whatever `url.Parse` does, has the tag asked for, a server
-- that is not empty, a port from 1 to 65535, the type of its protocol with that protocol's secret,
-- and a TLS object where the protocol needs TLS.
pub parse_uri-IsNode :
    (parse_url : ParseUrl) (raw tag : Text) {item : Map}
    → parse_uri parse_url raw tag ≡ ok item
    → IsNode tag item
unfolding parse_uri
parse_uri-IsNode parse_url raw tag h =
    let (url, _, h') = >>=-eq-ok (or_err (parse_url raw) invalid_uri) _ h in
    Steps-IsNode (parse_parsed-Steps url tag h')
