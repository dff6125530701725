-- ===== src/Node/Defs.antt =====
-- The errors of `parseURI`, one for each message, and the protocols that it accepts.
use egress_router.Common.{
  Bool, true, false, Option, none, some, ◌||◌, Text, lit, ◌==◌, text_eq, if◌then◌else◌,
}

pub data NodeError : Type 0 where
  invalid_uri unsupported_format missing_server_or_port invalid_query : NodeError
  unsupported_security reality_requires_key unsupported_plugin invalid_port : NodeError
  missing_credentials incomplete_obfuscation invalid_ss_credentials : NodeError
  unsupported_ss_method requires_tls invalid_ws_path unsupported_transport : NodeError
  transport_unsupported : NodeError

pub data Protocol : Type 0 where
  vless trojan hysteria2 shadowsocks : Protocol

-- The value of `item["type"]`.
abbrev pub type_name : Protocol → Text
type_name vless = lit "vless"
type_name trojan = lit "trojan"
type_name hysteria2 = lit "hysteria2"
type_name shadowsocks = lit "shadowsocks"

-- The protocol of a scheme in lower case; `none` is the default branch of the first switch.
unfoldable pub protocol_of : Text → Option Protocol
protocol_of scheme =
    if scheme == lit "vless"
    then some vless
    else if scheme == lit "trojan"
    then some trojan
    else if scheme == lit "hy2" || scheme == lit "hysteria2"
    then some hysteria2
    else if scheme == lit "ss"
    then some shadowsocks
    else none

-- item["type"] == "trojan" || item["type"] == "hysteria2"
abbrev pub needs_tls : Protocol → Bool
needs_tls trojan = true
needs_tls hysteria2 = true
needs_tls _ = false

-- item["type"] == "hysteria2" || item["type"] == "shadowsocks"
abbrev pub refuses_transport : Protocol → Bool
refuses_transport hysteria2 = true
refuses_transport shadowsocks = true
refuses_transport _ = false
