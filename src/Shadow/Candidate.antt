-- ===== src/Shadow/Candidate.antt =====
-- The candidate config of `Run` in shadow.go: the base config, and the nodes of a snapshot as its
-- outbounds.
use egress_router.Common.{
  ℕ, ◌+◌, Option, none, some, List, [], ◌∷◌, ◌++◌, map, Text, lit, text_eq, if◌then◌else◌, length,
  contains, decimal, Result, ok, err, or_err, ◌>>=◌,
}
use egress_router.Common.Json.{Value, str, arr, obj, Map, put, erase, items}
use egress_router.Node.{parse_uri}
use egress_router.Manager.Defs.{UpdateError}
use egress_router.Manager.Gather.{base_tags, with_tags, on_map}
use egress_router.Shadow.Defs.{
  Node, Platform, ShadowError, base_error, node_parse_failed, outbound_tag_collision,
  encode_candidate_failed,
}

-- fmt.Sprintf("catalog-shadow-%d", i+1)
abbrev pub node_tag : ℕ → Text
node_tag i = lit "catalog-shadow-" ++ decimal (i + 1)

-- node.Uri; `validSnapshot` has refused a nil node.
abbrev pub uri_of : Option Node → Text
uri_of none = []
uri_of (some node) = node.uri

-- The variables of the loop over the nodes; `outbounds` is what it appends to `values`.
pub record Chosen : Type 0 where
  pub tags : List Text
  pub seen : List Text
  pub generated : List Text
  pub outbounds : List Map

abbrev pub start : List Text → Chosen
start tags = record { tags = tags; seen = []; generated = []; outbounds = [] }

-- A node that parses; equal nodes are published once.
unfoldable pub add_node : Platform → Text → Map → Chosen → Chosen
add_node sys tag item c =
    let bare = erase "tag" item in
    let fingerprint = sys.marshal bare in
    if contains c.seen fingerprint then record c { tags = tag ∷ c.tags } else record {
      tags = tag ∷ c.tags;
      seen = fingerprint ∷ c.seen;
      generated = c.generated ++ (tag ∷ []);
      outbounds = c.outbounds ++ (put "tag" (str tag) bare ∷ []);
    }

-- One round of the loop.
unfoldable pub choose_node : Platform → ℕ → Option Node → Chosen → Result ShadowError Chosen
choose_node sys index node c = elim (parse_uri sys.parse_url (uri_of node) (node_tag index)) [
  | err _ ↦ err node_parse_failed
  | ok item ↦
      if contains c.tags (node_tag index)
      then err outbound_tag_collision
      else ok (add_node sys (node_tag index) item c)
]

unfoldable pub choose_nodes : Platform → ℕ → List (Option Node) → Chosen → Result ShadowError Chosen
choose_nodes sys index [] c = ok c
choose_nodes sys index (node ∷ nodes) c =
    choose_node sys index node c >>= λ c'. choose_nodes sys (index + 1) nodes c'

-- The base config with the nodes; a group gets the generated tags in front of its own.
unfoldable pub shadow_config : Map → List Value → Chosen → Map
shadow_config base values c =
    put "outbounds"
      (arr (items (map (on_map (with_tags (map str c.generated))) (values ++ map obj c.outbounds))))
      base

abbrev pub or_base_error : {A : Type 0} → Result UpdateError A → Result ShadowError A
or_base_error (ok a) = ok a
or_base_error (err e) = err (base_error e)

-- The bytes of the candidate, and the number of its nodes.
unfoldable pub candidate :
    Platform → List (Option Node) → Map × List Value → Result ShadowError (Text × ℕ)
candidate sys nodes (base, values) = do
  tags ← or_base_error (base_tags values [])
  c ← choose_nodes sys 0 nodes (start tags)
  config ← or_err (sys.encode_object (shadow_config base values c)) encode_candidate_failed
  ok (config ++ lit "\n", length c.generated)
