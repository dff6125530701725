-- ===== src/Tests/Feeds.antt =====
-- Feeds, base64 and names on samples.
use egress_router.Common.{
  ℕ, ◌+◌, ◌≤◌, true, false, some, List, [], ◌∷◌, ◌≡◌, refl, arith, Text, lit, text_beq, has_prefix,
  contains_text, split, join, space_width, last_space_width, drop_spaces, trim_space, decimal,
  length, All,
}
use mathlib.Core.Path.{subst}
use egress_router.Base64.{decode_base64}
use egress_router.Base64.RoundTrip.{IsByte, encode, decode_base64-encode}
use egress_router.Feed.{entries, decode_body}
use egress_router.Feed.Trim.{trim_space_idem}
use egress_router.Feed.Lines.{IsLine, decode_body-All, decode_body-join}
use egress_router.Feed.Encoded.{decode_body-encode}
use egress_router.Manager.Names.{node_name}
use egress_router.Manager.Names.Laws.{IsSafe, node_name-IsSafe, node_tag-index}
use egress_router.Tests.Samples.{parse_url, raw_node}

abbrev feed : List Text
feed = raw_node ∷ lit "ss://x" ∷ []

feed_lines : All IsLine feed
unfolding lit text_beq has_prefix trim_space drop_spaces space_width last_space_width
feed_lines = (
  record { entry = refl; one = omega arith; trimmed = refl },
  (record { entry = refl; one = omega arith; trimmed = refl }, tt),
)

feed_uris : contains_text (join (lit "\n") feed) (lit "://") ≡ true
unfolding contains_text has_prefix join lit text_beq
feed_uris = refl

feed_bytes : All IsByte (join (lit "\n") feed)
unfolding join lit
feed_bytes = ground arith

two_lines : decode_body (lit " ss://x \n#b\n ss://y") ≡ lit "ss://x" ∷ lit "ss://y" ∷ []
unfolding decode_body entries trim_space drop_spaces space_width last_space_width contains_text
    has_prefix split join lit text_beq
two_lines = refl

decode_body-All_example : All IsLine (lit "ss://x" ∷ lit "ss://y" ∷ [])
decode_body-All_example =
    subst (All IsLine) two_lines (decode_body-All (lit " ss://x \n#b\n ss://y"))

decode_body-join_example : decode_body (join (lit "\n") feed) ≡ feed
decode_body-join_example = decode_body-join feed feed_lines feed_uris

decode_body-encode_example :
    decode_body (encode (record { url = true; padded = false }) (join (lit "\n") feed)) ≡ feed
decode_body-encode_example = decode_body-encode false true feed feed_lines feed_bytes

trim_space_idem_example : trim_space (trim_space (lit " a ")) ≡ trim_space (lit " a ")
trim_space_idem_example = trim_space_idem (lit " a ")

decode_base64-encode_example :
    decode_base64 (encode (record { url = false; padded = true }) (join (lit "\n") feed))
    ≡ some (join (lit "\n") feed)
decode_base64-encode_example = decode_base64-encode (join (lit "\n") feed) feed_bytes true false

node_name-IsSafe_example :
    All IsSafe (node_name (lit "My node!") 3)
    × (length (node_name (lit "My node!") 3) ≤ 37 + length (decimal 3))
node_name-IsSafe_example = node_name-IsSafe (lit "My node!") 3

node_tag-index_example : ◌≡◌ {A = ℕ} 4 4
node_tag-index_example = node_tag-index parse_url (lit "n") (lit "n") raw_node raw_node 4 4 refl
