-- ===== src/Manager/Names.antt =====
-- Names of outbounds: `unsafeName`, `nodeName` and `fragment` of subscription-manager/main.go, and
-- the tag that `buildState` joins from them.
pub mod Laws
use egress_router.Common.{
  ℕ, ◌+◌, Bool, true, false, ◌||◌, ◌&&◌, not, Option, none, some, List, [], ◌∷◌, ◌++◌, Text, lit,
  ◌==◌, nat_eq, text_eq, text_beq, if◌then◌else◌, leb, take, trim, decimal, ◌≡◌, refl,
}
use egress_router.Url.{Url, path_unescape}
use egress_router.Node.{ParseUrl}

-- [A-Za-z0-9_-]; every byte of a longer UTF-8 sequence is outside.
abbrev pub is_safe : ℕ → Bool
is_safe c =
    (leb b'A' c && leb c b'Z')
    || ((leb b'a' c && leb c b'z') || ((leb b'0' c && leb c b'9') || (c == b'_' || c == b'-')))

-- A run of unsafe bytes becomes one dash; the flag is set inside a run.
unfoldable pub replace_from : Bool → Text → Text
replace_from in_run [] = []
replace_from in_run (c ∷ s) =
    let rest = replace_from (not (is_safe c)) s in
    if is_safe c then c ∷ rest else if in_run then rest else b'-' ∷ rest

-- unsafeName.ReplaceAllString(raw, "-")
abbrev pub replace_unsafe : Text → Text
replace_unsafe = replace_from false

abbrev or_node : Text → Text
or_node name = if name == [] then lit "node" else name

-- `nodeName`
unfoldable pub node_name : Text → ℕ → Text
node_name raw index = or_node (take 36 (trim b'-' (replace_unsafe raw))) ++ (b'-' ∷ decimal index)

abbrev unescaped_or : Text → Option Text → Text
unescaped_or raw none = raw
unescaped_or raw (some decoded) = decoded

abbrev fragment_of : Option Url → Text
fragment_of none = []
fragment_of (some url) = unescaped_or url.fragment (path_unescape url.fragment)

-- `fragment`
unfoldable pub fragment : ParseUrl → Text → Text
fragment parse_url raw = fragment_of (parse_url raw)

-- "sub-" + unsafeName(subscription.Name) + "-" + nodeName(fragment(rawURI), index+1)
unfoldable pub node_tag : ParseUrl → Text → Text → ℕ → Text
node_tag parse_url name raw index =
    lit "sub-"
    ++ (replace_unsafe name ++ (lit "-" ++ node_name (fragment parse_url raw) (index + 1)))

node_name_tests :
    (node_name (lit "--My node!! (fast)--") 3 ≡ lit "My-node-fast-3")
    × (node_name (lit "!!!") 12 ≡ lit "node-12")
unfolding node_name replace_from trim decimal lit text_beq
node_name_tests = (refl, refl)
