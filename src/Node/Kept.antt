-- ===== src/Node/Kept.antt =====
-- Which fields of the item each step of `parseURI` sets, and that it keeps the others.
use egress_router.Common.{
  true, false, some, List, [], ◌∷◌, ◌++◌, String, Text, string_eq, text_eq, contains, ok, >>=-eq-ok,
  or_err, ◌≡◌, ◌≢◌, inl, inr, refl, arith, Option-cases, cut,
}
use egress_router.Common.Json.{str, Map, get, get-put}
use egress_router.Url.{UserInfo, Values}
use egress_router.Node.Defs.{Protocol, vless, trojan, hysteria2, shadowsocks, type_name}
use egress_router.Node.Options.{get-put_if}
use egress_router.Node.Credentials.{
  user_and_password, hysteria2_fields, hysteria2_item, supported_method, ss_fields, ss_userinfo,
  ss_item, with_credentials,
}

-- The fields that depend on the protocol.
abbrev pub credential_keys : List String
credential_keys = "type" ∷ "uuid" ∷ "flow" ∷ "password" ∷ "method" ∷ "obfs" ∷ []

hysteria2_fields-keeps :
    (u : UserInfo) (q : Values) (item : Map) (k : String)
    → contains credential_keys k ≡ false
    → get k (hysteria2_fields u q item) ≡ get k item
unfolding hysteria2_fields
hysteria2_fields-keeps u q item k c = grind (arith, get-put, get-put_if)

ss_fields-keeps :
    (method password : Text) (item : Map) (k : String)
    → contains credential_keys k ≡ false
    → get k (ss_fields method password item) ≡ get k item
unfolding ss_fields
ss_fields-keeps method password item k c = grind (arith, get-put)

ss_item-eq-ok :
    (u : UserInfo) (item : Map) {item' : Map}
    → ss_item u item ≡ ok item'
    → (method : Text) × (password : Text) × (supported_method method ≡ true)
      × (item' ≡ ss_fields method password item)
unfolding ss_item
ss_item-eq-ok u item h =
    let (userinfo, _, h') = >>=-eq-ok (ss_userinfo u) _ h in
    let ((method, password), _, h'') = >>=-eq-ok (or_err (cut b':' userinfo) _) _ h' in
    (method, password, ground arith, ground arith)

pub with_credentials-keeps :
    (p : Protocol) (u : UserInfo) (q : Values) (item : Map) (k : String) {item' : Map}
    → with_credentials p u q item ≡ ok item'
    → contains credential_keys k ≡ false
    → get k item' ≡ get k item
unfolding with_credentials hysteria2_item
with_credentials-keeps vless u q item k h c = grind (arith, get-put, get-put_if)
with_credentials-keeps trojan u q item k h c = grind (arith, get-put, get-put_if)
with_credentials-keeps hysteria2 u q item k h c =
    ground (arith, hysteria2_fields-keeps u q item k c)
with_credentials-keeps shadowsocks u q item k h c =
    let (method, password, _, e) = ss_item-eq-ok u item h in
    rw e (ss_fields-keeps method password item k c)

-- Every accepted item names its protocol.
pub with_credentials-type :
    (p : Protocol) (u : UserInfo) (q : Values) (item : Map) {item' : Map}
    → with_credentials p u q item ≡ ok item'
    → get "type" item' ≡ some (str (type_name p))
unfolding with_credentials hysteria2_item hysteria2_fields ss_fields
with_credentials-type vless u q item h = grind (arith, get-put, get-put_if)
with_credentials-type trojan u q item h = grind (arith, get-put, get-put_if)
with_credentials-type hysteria2 u q item h = grind (arith, get-put, get-put_if)
with_credentials-type shadowsocks u q item h =
    let (method, password, _, e) = ss_item-eq-ok u item h in rw e (simp get-put)

-- The secret of an item, by protocol.
abbrev pub HasSecret : Protocol → Map → Type 0
HasSecret vless item = (id : Text) × (get "uuid" item ≡ some (str id)) × (id ≢ [])
HasSecret shadowsocks item =
    (method : Text) × (password : Text) × (get "method" item ≡ some (str method))
    × (get "password" item ≡ some (str password))
    × (supported_method method ≡ true)
HasSecret _ item = (s : Text) × (get "password" item ≡ some (str s)) × (s ≢ [])

append-ne-nil : (s t : Text) → s ≢ [] → s ++ t ≢ []
append-ne-nil [] t h = absurd (h refl)
append-ne-nil (c ∷ s) t h = ground arith

user_and_password-ne-nil : (u : UserInfo) → u.username ≢ [] → user_and_password u ≢ []
user_and_password-ne-nil u h = elim (Option-cases u.password) [
  | inl e ↦ rw e h
  | inr (p, e) ↦ rw e (append-ne-nil u.username _ h)
]

pub with_credentials-HasSecret :
    (p : Protocol) (u : UserInfo) (q : Values) (item : Map) {item' : Map}
    → u.username ≢ []
    → with_credentials p u q item ≡ ok item'
    → HasSecret p item'
unfolding with_credentials hysteria2_item hysteria2_fields ss_fields
with_credentials-HasSecret vless u q item n h = (u.username, grind (arith, get-put, get-put_if), n)
with_credentials-HasSecret trojan u q item n h =
    (user_and_password u, grind (arith, get-put, get-put_if), user_and_password-ne-nil u n)
with_credentials-HasSecret hysteria2 u q item n h =
    (user_and_password u, grind (arith, get-put, get-put_if), user_and_password-ne-nil u n)
with_credentials-HasSecret shadowsocks u q item n h =
    let (method, password, s, e) = ss_item-eq-ok u item h in
    (method, password, rw e (simp get-put), rw e (simp get-put), s)
