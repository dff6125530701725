-- ===== src/Node/Reality.antt =====
-- REALITY, which only VLESS and Shadowsocks nodes can have.
use egress_router.Common.{
  true, false, some, [], Text, lit, string_eq, text_beq, text_beq_iff, text_eq, ok, ◌≡◌, ◌≢◌, refl,
  ◌∙◌, ap, arith,
}
use egress_router.Common.Json.{str, obj, Map, get, get-put}
use egress_router.Url.{Url, Values, query_get, parse_query}
use egress_router.Node.Defs.{Protocol, vless, shadowsocks, needs_tls}
use egress_router.Node.Options.{get-put_if, reality_from, with_reality, tls_map, tls_from}
use egress_router.Node.Parse.{check_query, require_tls, with_tls, ParseUrl, parse_uri}
use egress_router.Node.Accepted.{Steps, parse_parsed-Steps, with_transport-keeps}
use egress_router.Node.WellFormed.{with_tls-found}

text_beq_refl : (s : Text) → text_beq s s ≡ true
text_beq_refl s = (text_beq_iff s s).1 refl

reality-ne-tls : text_beq (lit "reality") (lit "tls") ≡ false
unfolding lit text_beq
reality-ne-tls = refl

reality-ne-nil : text_beq (lit "reality") [] ≡ false
unfolding lit text_beq
reality-ne-nil = refl

-- The TLS settings of an item hold the public key that the query names.
pub record HasReality (q : Values) (item : Map) : Type 0 where
  pub tls : Map
  pub reality : Map
  pub found : get "tls" item ≡ some (obj tls)
  pub inner : get "reality" tls ≡ some (obj reality)
  pub key : get "public_key" reality ≡ some (str (query_get q (lit "pbk")))
  pub key_ne : query_get q (lit "pbk") ≢ []

module _ (q : Values) (h : query_get q (lit "security") ≡ lit "reality") where
  check_query-key : check_query q ≡ ok tt → query_get q (lit "pbk") ≢ []
  unfolding check_query
  check_query-key c = ground (
    arith,
    reality-ne-tls,
    reality-ne-nil,
    text_beq_refl (lit "reality"),
    text_beq_iff (query_get q (lit "security")) (lit "reality"),
    text_beq_iff (query_get q (lit "pbk")) [],
  )

  require_tls-reality :
      (p : Protocol) {q' : Values} → require_tls p q ≡ ok q' → (needs_tls p ≡ false) × (q' ≡ q)
  unfolding require_tls
  require_tls-reality vless c = ground arith
  require_tls-reality shadowsocks c = ground arith
  require_tls-reality p c = ground (
    arith,
    reality-ne-tls,
    reality-ne-nil,
    ap (λ (s : Text). text_beq s (lit "tls")) h,
    ap (λ (s : Text). text_beq s []) h,
  )

  tls_from-reality : tls_from q ≡ some (tls_map q (lit "reality"))
  unfolding tls_from
  tls_from-reality = rw (h, reality-ne-tls, text_beq_refl (lit "reality")) refl

  tls_map-reality :
      query_get q (lit "pbk") ≢ []
      → get "reality" (tls_map q (lit "reality")) ≡ some (obj (reality_from q))
  unfolding tls_map with_reality
  tls_map-reality n =
      rw (get-put_if, text_beq_refl (lit "reality"))
        (ground (arith, text_beq_iff (query_get q (lit "pbk")) []))

reality_from-key :
    (q : Values) → get "public_key" (reality_from q) ≡ some (str (query_get q (lit "pbk")))
unfolding reality_from
reality_from-key q = grind (arith, get-put, get-put_if)

module _ {url : Url} {tag : Text} {item : Map} (q : Values) where
  Steps-HasReality :
      Steps url tag item
      → parse_query url.raw_query ≡ some q
      → query_get q (lit "security") ≡ lit "reality"
      → HasReality q item
  Steps-HasReality s same h =
      let same_q : s.q ≡ q = cc (s.query, same) in
      let checked = rw same_q at s.checked in
      let secured = rw same_q at s.secured in
      let (_, q'_eq) = require_tls-reality q h s.p secured in
      let n = check_query-key q h checked in
      record {
        tls = tls_map q (lit "reality");
        reality = reality_from q;
        found =
            with_transport-keeps s.p s.q' (with_tls s.q' s.item') "tls" s.carried refl
            ∙ with_tls-found s.q' s.item' (ap tls_from q'_eq ∙ tls_from-reality q h);
        inner = tls_map-reality q h n;
        key = reality_from-key q;
        key_ne = n;
      }

-- An item that `parse_uri` returns for a URL whose query asks for the security reality has a TLS
-- object with a reality object, whose public key is the one of the query and is not empty.
pub parse_uri-HasReality :
    (parse_url : ParseUrl) (raw tag : Text) (q : Values) {url : Url} {item : Map}
    → parse_url raw ≡ some url
    → parse_query url.raw_query ≡ some q
    → query_get q (lit "security") ≡ lit "reality"
    → parse_uri parse_url raw tag ≡ ok item
    → HasReality q item
unfolding parse_uri
parse_uri-HasReality parse_url raw tag q {url} u same h e =
    Steps-HasReality q (parse_parsed-Steps url tag (rw (u, parse_uri) at e)) same h
