-- ===== src/Manager/Base.antt =====
-- The base config that a program has read.
use egress_router.Common.{
  Option, some, List, ◌≡◌, sym, ◌∙◌, Text, text_eq, arith, Option-cases, inl, inr, ok, ◌≤◌,
}
use egress_router.Manager.Files.{read_state}
use egress_router.Common.Json.{Value, Map, get, as_array}
use egress_router.System.{File, World, fate, read_file}
use egress_router.System.Frame.{Fate-cases}
use egress_router.Manager.Defs.{Platform, Config}
use egress_router.Manager.Build.{read_base}

-- The object that a file decodes to, and its outbounds.
pub record IsBase (decode_object : Text → Option Map) (path : Text) (w : World) (base : Map)
    (values : List Value) : Type 0 where
  pub file : File
  pub there : w.files path ≡ some file
  pub decoded : decode_object file.content ≡ some base
  pub listed : as_array (get "outbounds" base) ≡ some values

pub IsBase-earlier :
    {decode_object : Text → Option Map} {path : Text} (w w' : World) {base : Map}
    {values : List Value}
    → w'.files path ≡ w.files path
    → IsBase decode_object path w' base values
    → IsBase decode_object path w base values
IsBase-earlier w w' e h = record {
  file = h.file;
  there = sym e ∙ h.there;
  decoded = h.decoded;
  listed = h.listed;
}

pub read_base-IsBase :
    (sys : Platform) (cfg : Config) (w : World) {base : Map} {values : List Value}
    → (read_base sys cfg w).1 ≡ ok (base, values)
    → IsBase sys.decode_object cfg.base w base values
unfolding read_base read_file
read_base-IsBase sys cfg w {base} {values} h = elim (Fate-cases (fate w)) [
  | inr (s, g) ↦ absurd (ground (arith, g, h))
  | inl (s, g) ↦ elim (Option-cases (w.files cfg.base)) [
    | inl e ↦ absurd (ground (arith, g, e, h))
    | inr (f, e) ↦ elim (Option-cases (sys.decode_object f.content)) [
      | inl d ↦ absurd (ground (arith, g, e, d, h))
      | inr (b, d) ↦ elim (Option-cases (as_array (get "outbounds" b))) [
        | inl a ↦ absurd (ground (arith, g, e, d, a, h))
        | inr (vs, a) ↦ record {
          file = f;
          there = e;
          decoded = ground (arith, g, e, d, a, h);
          listed = ground (arith, g, e, d, a, h);
        }
      ]
    ]
  ]
]

-- The same web, at the same call or a later one.
abbrev pub IsWebOf : World → World → Type 0
IsWebOf w w' = (w'.web ≡ w.web) × (w.calls ≤ w'.calls)

read_file-IsWebOf : (path : Text) (w : World) → IsWebOf w (read_file path w).0
unfolding read_file
read_file-IsWebOf path w = (ground arith, ground arith)

pub read_base-IsWebOf :
    (sys : Platform) (cfg : Config) (w : World) → IsWebOf w (read_base sys cfg w).0
unfolding read_base
read_base-IsWebOf sys cfg w = read_file-IsWebOf cfg.base w

pub read_state-IsWebOf :
    (sys : Platform) (path : Text) (w : World) → IsWebOf w (read_state sys path w).0
unfolding read_state
read_state-IsWebOf sys path w = read_file-IsWebOf path w

pub IsWebOf-trans : (w w' u : World) → IsWebOf w w' → IsWebOf w' u → IsWebOf w u
IsWebOf-trans w w' u (e, l) (f, m) = (f ∙ e, omega (arith, l, m))
