-- ===== src/Node/SameNode.antt =====
-- The tag of an item has no influence on its other fields, so that equal nodes of two feeds have
-- equal fingerprints.
use egress_router.Common.{
  ℕ, Bool, true, false, String, Text, ◌==◌, string_eq, text_eq, Result, ok, err, ◌>>=◌, result_map,
  ◌≡◌, refl, sym, ap, ◌∙◌, arith, inl, inr, Option-cases,
}
use egress_router.Common.Json.{Value, Map, erase, erase-put}
use egress_router.Url.{UserInfo, Url, Values}
use egress_router.Node.Defs.{NodeError, Protocol, vless, trojan, hysteria2, shadowsocks}
use egress_router.Node.Options.{put_if}
use egress_router.Node.Credentials.{
  hysteria2_fields, hysteria2_item, ss_fields, ss_item, with_credentials,
}
use egress_router.Node.Parse.{
  require_tls, with_tls, with_transport, base_item, parse_parsed, ParseUrl, parse_uri,
}

abbrev without_tag : Map → Map
without_tag = erase "tag"

put_if-erase :
    (b : Bool) (j : String) (v : Value) (m : Map)
    → (j == "tag") ≡ false
    → without_tag (put_if b j v m) ≡ put_if b j v (without_tag m)
unfolding put_if
put_if-erase true j v m h = rw (erase-put, h)
put_if-erase false j v m h = refl

result_map->>= :
    {E A B C : Type 0} (f : B → C) (m : Result E A) (g : A → Result E B)
    → result_map f (m >>= g) ≡ (m >>= λ a. result_map f (g a))
result_map->>= f (ok a) g = refl
result_map->>= f (err e) g = refl

hysteria2_fields-erase :
    (u : UserInfo) (q : Values) (item : Map)
    → without_tag (hysteria2_fields u q item) ≡ hysteria2_fields u q (without_tag item)
unfolding hysteria2_fields
hysteria2_fields-erase u q item = simp (put_if-erase, erase-put)

ss_fields-erase :
    (method password : Text) (item : Map)
    → without_tag (ss_fields method password item) ≡ ss_fields method password (without_tag item)
unfolding ss_fields
ss_fields-erase method password item = simp erase-put

with_credentials-erase :
    (p : Protocol) (u : UserInfo) (q : Values) (item : Map)
    → result_map without_tag (with_credentials p u q item)
      ≡ with_credentials p u q (without_tag item)
unfolding with_credentials hysteria2_item ss_item
with_credentials-erase vless u q item = simp (put_if-erase, erase-put)
with_credentials-erase trojan u q item = simp (put_if-erase, erase-put)
with_credentials-erase hysteria2 u q item = simp (result_map->>=, hysteria2_fields-erase)
with_credentials-erase shadowsocks u q item = simp (result_map->>=, ss_fields-erase)

with_tls-erase :
    (q : Values) (item : Map) → without_tag (with_tls q item) ≡ with_tls q (without_tag item)
unfolding with_tls
with_tls-erase q item = grind (arith, erase-put)

with_transport-erase :
    (p : Protocol) (q : Values) (item : Map)
    → result_map without_tag (with_transport p q item) ≡ with_transport p q (without_tag item)
unfolding with_transport
with_transport-erase p q item = grind (arith, erase-put)

bind-result_map :
    {E A B C : Type 0} (f : A → B) (m : Result E A) (g : B → Result E C)
    → (m >>= λ a. g (f a)) ≡ (result_map f m >>= g)
bind-result_map f (ok a) g = refl
bind-result_map f (err e) g = refl

base_item-erase :
    (t u server : Text) (port : ℕ)
    → without_tag (base_item t server port) ≡ without_tag (base_item u server port)
base_item-erase t u server port = simp erase-put

module _ (t u server : Text) (port : ℕ) (p : Protocol) (user : UserInfo) (q : Values) where
  abbrev finish : Map → Result NodeError Map
  finish item = require_tls p q >>= λ q'. with_transport p q' (with_tls q' item)

  with_credentials-base_item :
      (with_credentials p user q (base_item t server port) >>= λ item. finish (without_tag item))
      ≡ (with_credentials p user q (base_item u server port) >>= λ item. finish (without_tag item))
  with_credentials-base_item =
      bind-result_map without_tag (with_credentials p user q (base_item t server port)) finish
      ∙ ap (λ m. m >>= finish)
          (with_credentials-erase p user q (base_item t server port)
            ∙ ap (with_credentials p user q) (base_item-erase t u server port)
            ∙ sym (with_credentials-erase p user q (base_item u server port)))
      ∙ sym
          (bind-result_map without_tag (with_credentials p user q (base_item u server port)) finish)

parse_parsed-erase :
    (url : Url) (t u : Text)
    → result_map (erase "tag") (parse_parsed url t) ≡ result_map (erase "tag") (parse_parsed url u)
unfolding parse_parsed
parse_parsed-erase url t u =
    simp (result_map->>=, with_transport-erase, with_tls-erase)
      (simp (with_credentials-base_item t u))

-- With any two tags a URI is refused alike, or gives items that agree in every field but the tag.
pub parse_uri-erase :
    (parse_url : ParseUrl) (raw t u : Text)
    → result_map (erase "tag") (parse_uri parse_url raw t)
      ≡ result_map (erase "tag") (parse_uri parse_url raw u)
unfolding parse_uri
parse_uri-erase parse_url raw t u = elim (Option-cases (parse_url raw)) [
  | inl e ↦ rw e
  | inr (url, e) ↦ rw e (parse_parsed-erase url t u)
]
