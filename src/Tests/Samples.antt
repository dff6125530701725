-- ===== src/Tests/Samples.antt =====
-- A sample of the outside: a parser of URLs that knows two, a world that works and one in which the web
-- does not answer with a success.
use egress_router.Common.{
  ℕ, ◌+◌, true, Option, none, some, List, [], ◌∷◌, ◌≡◌, ◌≢◌, ap, ◌∙◌, arith, Text, lit, has_prefix,
  if◌then◌else◌, ◌==◌, nat_eq, text_eq, length, length-append,
}
use egress_router.Common.Json.{
  Value, Map, empty, entry, int, bool, put, arr, items, obj, str, get, as_text,
}
use egress_router.Url.{Url}
use egress_router.System.{File, World, goes, answer, temp_name}
use egress_router.Manager.Defs.{Subscription, Platform, Config}
use egress_router.Manager.Writing.{IsPlain}
use egress_router.Manager.Update.{Health, Service}

-- vless://u@h:443?security=reality&pbk=K#n
abbrev pub node_url : Url
node_url = record {
  scheme = lit "vless";
  user = some (record { username = lit "u"; password = none });
  hostname = lit "h";
  port = lit "443";
  raw_query = lit "security=reality&pbk=K";
  fragment = lit "n";
}

abbrev pub feed_url : Url
feed_url = record {
  scheme = lit "https";
  user = none;
  hostname = lit "h";
  port = [];
  raw_query = [];
  fragment = [];
}

abbrev pub parse_url : Text → Option Url
parse_url s = if has_prefix s (lit "https") then some feed_url else some node_url

abbrev pub raw_node : Text
raw_node = lit "vless://u@h:443"

-- The item of `node_url`.
abbrev pub node_item : Text → Map
node_item tag = entry "tag" (str tag) (
    entry "server" (str (lit "h")) (
      entry "server_port" (int 443) (
        entry "type" (str (lit "vless")) (
          entry "uuid" (str (lit "u")) (
            entry "tls"
              (obj (
                entry "enabled" (bool true) (
                  entry "utls"
                    (obj (
                      entry "enabled" (bool true) (entry "fingerprint" (str (lit "chrome")) empty)))
                    (entry "reality"
                      (obj (entry "enabled" (bool true) (entry "public_key" (str (lit "K")) empty)))
                      empty))))
              empty)))))

abbrev pub base_values : List Value
base_values = obj (put "tag" (str (lit "direct")) empty) ∷ []

abbrev pub base_config : Map
base_config = put "outbounds" (arr (items base_values)) empty

abbrev pub platform : Platform
platform = record {
  parse_url = parse_url;
  decode_object = λ _. some base_config;
  encode_object = λ _. lit "C";
  decode_state = λ _. some [];
  encode_state = λ _. lit "S";
  marshal = λ m. as_text (get "server" m);
  accepts = λ _. true;
}

abbrev pub config : Config
config = record { base = lit "b"; output = lit "o"; state = lit "s" }

abbrev pub subscription : Subscription
subscription = record { name = lit "n"; url = lit "https://h" }

abbrev pub base_file : Text → Option File
base_file p = if p == lit "b" then some (record { content = lit "B"; mode = 0o644 }) else none

abbrev pub good_world : World
good_world = record {
  files = base_file;
  plan = λ _. goes (lit "r");
  web = λ _ _. answer 200 raw_node true;
  others = λ _. none;
  inodes = λ _ _. none;
  clock = λ _. 1000;
  calls = 0;
}

-- The web does not answer with a success.
abbrev pub bad_world : World
bad_world = record good_world { web = λ _ _. answer 500 [] true }

abbrev pub health : Health
health = record {
  last_attempt = none;
  last_success = none;
  nodes = 0;
  skipped_nodes = 0;
  last_error = none;
}

abbrev pub service_in : World → Service
service_in w = record { health = health; world = w }

length-temp_name :
    (dir prefix random : Text)
    → length (temp_name dir prefix random)
      ≡ length dir + (length (lit "/") + (length prefix + length random))
length-temp_name dir prefix random =
    length-append dir _
    ∙ ap (λ n. length dir + n)
        (length-append (lit "/") _ ∙ ap (λ n. length (lit "/") + n) (length-append prefix random))

-- A name of one byte is no temporary file.
pub short-IsPlain : (c : ℕ) → IsPlain (c ∷ [])
unfolding lit
short-IsPlain c = record {
  no_config =
      λ dir random e. omega (arith, ap length e, length-temp_name dir (lit ".config-") random);
  no_tmp = λ dir random e. omega (arith, ap length e, length-temp_name dir (lit ".tmp-") random);
}

pub output-IsPlain : IsPlain config.output
unfolding lit
output-IsPlain = short-IsPlain b'o'

pub state-IsPlain : IsPlain config.state
unfolding lit
state-IsPlain = short-IsPlain b's'

pub apart : config.output ≢ config.state
unfolding lit
apart e = ground (arith, e)
