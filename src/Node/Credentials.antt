-- ===== src/Node/Credentials.antt =====
-- The second switch of `parseURI`: what each protocol takes from the user part and the query.
use egress_router.Common.{
  Bool, ◌&&◌, ◌||◌, not, none, some, List, [], ◌∷◌, ◌++◌, Text, lit, ◌==◌, text_eq, if◌then◌else◌,
  contains, contains_text, cut, Result, ok, ◌>>=◌, ◌>>◌, reject, or_err,
}
use egress_router.Base64.{decode_base64}
use egress_router.Common.Json.{str, obj, Map, empty, put}
use egress_router.Url.{UserInfo, Values, query_get}
use egress_router.Node.Defs.{
  NodeError, incomplete_obfuscation, invalid_ss_credentials, unsupported_ss_method, Protocol, vless,
  trojan, hysteria2, shadowsocks,
}
use egress_router.Node.Options.{put_if, nonempty}

-- `user`, or `user + ":" + password` where the URI has a password
abbrev pub user_and_password : UserInfo → Text
user_and_password u = elim u.password [ none ↦ u.username | some p ↦ u.username ++ (lit ":" ++ p) ]

unfoldable pub vless_flow : Values → Text
vless_flow q =
    let flow = query_get q (lit "flow") in
    if flow == lit "xtls-rprx-vision-udp443" then lit "xtls-rprx-vision" else flow

abbrev vless_item : UserInfo → Values → Map → Map
vless_item u q item =
    let flow = vless_flow q in
    put_if (flow == lit "xtls-rprx-vision" || flow == lit "xtls-rprx-direct") "flow" (str flow)
      (put "uuid" (str u.username) (put "type" (str (lit "vless")) item))

abbrev trojan_item : UserInfo → Map → Map
trojan_item u item =
    put "password" (str (user_and_password u)) (put "type" (str (lit "trojan")) item)

unfoldable pub hysteria2_fields : UserInfo → Values → Map → Map
hysteria2_fields u q item =
    let obfs = query_get q (lit "obfs") in
    let secret = query_get q (lit "obfs-password") in
    put_if (obfs == lit "salamander" && nonempty secret) "obfs"
      (obj (put "password" (str secret) (put "type" (str (lit "salamander")) empty)))
      (put "password" (str (user_and_password u)) (put "type" (str (lit "hysteria2")) item))

unfoldable pub hysteria2_item : UserInfo → Values → Map → Result NodeError Map
hysteria2_item u q item =
    let obfs = query_get q (lit "obfs") in
    do
      reject
          (nonempty obfs
            && (not (obfs == lit "salamander") || query_get q (lit "obfs-password") == []))
          incomplete_obfuscation
      ok (hysteria2_fields u q item)

abbrev ss_methods : List Text
ss_methods =
    lit "aes-128-gcm"
    ∷ lit "aes-256-gcm"
    ∷ lit "chacha20-ietf-poly1305"
    ∷ lit "2022-blake3-aes-128-gcm"
    ∷ lit "2022-blake3-aes-256-gcm"
    ∷ lit "2022-blake3-chacha20-poly1305"
    ∷ []

-- supported[method]
unfoldable pub supported_method : Text → Bool
supported_method method = contains ss_methods method

unfoldable pub ss_fields : Text → Text → Map → Map
ss_fields method password item =
    put "password" (str password)
      (put "method" (str method) (put "type" (str (lit "shadowsocks")) item))

-- `method:password`, which may be base64.
unfoldable pub ss_userinfo : UserInfo → Result NodeError Text
ss_userinfo u =
    let userinfo = user_and_password u in
    if contains_text userinfo (lit ":")
    then ok userinfo
    else or_err (decode_base64 userinfo) invalid_ss_credentials

unfoldable pub ss_item : UserInfo → Map → Result NodeError Map
ss_item u item = do
  userinfo ← ss_userinfo u
  (method, password) ← or_err (cut b':' userinfo) unsupported_ss_method
  reject (not (supported_method method)) unsupported_ss_method
  ok (ss_fields method password item)

unfoldable pub with_credentials : Protocol → UserInfo → Values → Map → Result NodeError Map
with_credentials vless u q item = ok (vless_item u q item)
with_credentials trojan u q item = ok (trojan_item u item)
with_credentials hysteria2 u q item = hysteria2_item u q item
with_credentials shadowsocks u q item = ss_item u item
