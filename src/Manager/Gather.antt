-- ===== src/Manager/Gather.antt =====
-- The pure parts of `buildState` in subscription-manager/main.go: the checks of the base config and
-- of the names, the loop over a provider's nodes, and the new list of outbounds.
use egress_router.Common.{
  ℕ, ◌+◌, Bool, ◌&&◌, ◌||◌, not, Option, none, some, List, [], ◌∷◌, ◌++◌, map, Text, lit, ◌==◌,
  text_eq, if◌then◌else◌, ltb, length, contains, Result, ok, err,
}
use egress_router.Common.Json.{
  Value, null, arr, obj, Map, get, put, erase, items, as_map, as_array, as_text, is_text,
}
use egress_router.Node.{NodeError, parse_uri}
use egress_router.Manager.Names.{replace_unsafe, node_tag}
use egress_router.Manager.Defs.{
  State, Platform, UpdateError, invalid_base_outbound, base_tag_collision, name_collision,
  tag_collision, Warning,
}

abbrev pub tag_of : Map → Text
tag_of item = as_text (get "tag" item)

-- The loop over the outbounds of the base config; it returns the keys of `tags`.
unfoldable pub base_tags : List Value → List Text → Result UpdateError (List Text)
base_tags [] tags = ok tags
base_tags (v ∷ vs) tags = elim (as_map v) [
  | none ↦ err invalid_base_outbound
  | some item ↦
      let rest = base_tags vs (tag_of item ∷ tags) in
      if not (tag_of item == []) && contains tags (tag_of item)
      then err base_tag_collision
      else rest
]

-- The loop over the names of the subscriptions.
unfoldable pub check_names : State → List Text → Result UpdateError (Unit {0})
check_names [] names = ok tt
check_names (sub ∷ subs) names =
    let name = replace_unsafe sub.name in
    let rest = check_names subs (name ∷ names) in
    if sub.name == [] || contains names name then err name_collision else rest

-- The variables of the loop over the providers.
pub record Gathered : Type 0 where
  pub tags : List Text
  pub seen : List Text
  pub outbounds : List Map
  pub warnings : List Warning
  pub skipped : ℕ

abbrev pub start : List Text → Gathered
start tags = record { tags = tags; seen = []; outbounds = []; warnings = []; skipped = 0 }

-- A node that does not parse; at most 20 warnings are kept.
unfoldable pub skip_node : ℕ → ℕ → NodeError → Gathered → Gathered
skip_node provider index e g = record g {
  warnings =
      if ltb (length g.warnings) 20
      then g.warnings ++ (record { provider = provider; node = index; reason = e } ∷ [])
      else g.warnings;
  skipped = g.skipped + 1;
}

-- A node that parses; equal nodes are published once.
unfoldable pub add_node : Platform → Text → Map → Gathered → Gathered
add_node sys tag item g =
    let fingerprint = sys.marshal (erase "tag" item) in
    if contains g.seen fingerprint then record g { tags = tag ∷ g.tags } else record g {
      tags = tag ∷ g.tags;
      seen = fingerprint ∷ g.seen;
      outbounds = g.outbounds ++ (item ∷ []);
    }

-- The loop over the nodes of one provider: `index` URIs have been read, `parsed` of them parsed.
unfoldable pub gather_nodes :
    Platform → Text → ℕ → List Text → ℕ → ℕ → Gathered → Result UpdateError (Gathered × ℕ)
gather_nodes sys name provider [] index parsed g = ok (g, parsed)
gather_nodes sys name provider (raw ∷ uris) index parsed g =
    let tag = node_tag sys.parse_url name raw index in
    elim (parse_uri sys.parse_url raw tag) [
      | err e ↦
          gather_nodes sys name provider uris (index + 1) parsed
            (skip_node provider (index + 1) e g)
      | ok item ↦
          let rest =
            gather_nodes sys name provider uris (index + 1) (parsed + 1)
              (add_node sys tag item g) in
          if contains g.tags tag then err tag_collision else rest
    ]

abbrev value_or_null : Option Value → Value
value_or_null none = null
value_or_null (some v) = v

-- `generatedTags`
abbrev pub generated_tags : List Map → List Value
generated_tags outbounds = map (λ item. value_or_null (get "tag" item)) outbounds

abbrev pub or_nil : Option (List Value) → List Value
or_nil none = []
or_nil (some vs) = vs

-- item["tag"] == "telegram-auto" || item["tag"] == "default-auto"
unfoldable pub is_group : Map → Bool
is_group item =
    is_text (get "tag" item) (lit "telegram-auto") || is_text (get "tag" item) (lit "default-auto")

-- A group gets the generated tags in front of its own.
unfoldable pub with_tags : List Value → Map → Map
with_tags tags item =
    if is_group item
    then put "outbounds" (arr (items (tags ++ or_nil (as_array (get "outbounds" item))))) item
    else item

abbrev pub on_map : (Map → Map) → Value → Value
on_map f (obj m) = obj (f m)
on_map f v = v

-- append([]any(nil), …): without an element the slice is nil, which is encoded as null.
abbrev pub or_null : List Value → Value
or_null [] = null
or_null (v ∷ vs) = arr (items (v ∷ vs))

-- The base config with the generated outbounds.
unfoldable pub splice : Map → List Value → List Map → Map
splice base values outbounds =
    put "outbounds"
      (or_null (map (on_map (with_tags (generated_tags outbounds))) values ++ map obj outbounds))
      base
