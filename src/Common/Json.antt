-- ===== src/Common/Json.antt =====
-- What `encoding/json` decodes into an `any`, and what the program builds to encode: values and
-- `map[string]any`.
use Prim.Native.Nat.{ℕ}
use Prim.Native.String.{String}
use text.Mathlib.TextEquality.{eq_iff}
use mathlib.Core.Path.{◌≡◌, refl}
use mathlib.Core.Bool.{Bool, false}
use mathlib.Core.Option.{Option, none, some}
use mathlib.Core.List.{List, [], ◌∷◌}
use native.Mathlib.Omega.{arith}
use egress_router.Common.Tests.{◌==◌, string_eq, if◌then◌else◌}
use egress_router.Common.Bytes.{Text, text_eq}

-- `float` holds the bits of a decoded number, which the program never reads.
mutual
  pub data Value : Type 0 where
    null : Value
    bool : Bool → Value
    int : ℕ → Value
    float : ℕ → Value
    str : Text → Value
    arr : Items → Value
    obj : Map → Value

  pub data Items : Type 0 where
    nil : Items
    cons : Value → Items → Items

  pub data Map : Type 0 where
    empty : Map
    entry : String → Value → Map → Map

unfoldable pub elems : Items → List Value
elems nil = []
elems (cons v vs) = v ∷ elems vs

unfoldable pub items : List Value → Items
items [] = nil
items (v ∷ vs) = cons v (items vs)

pub elems-items : (vs : List Value) → elems (items vs) ≡ vs
unfolding elems items
elems-items [] = refl
elems-items (v ∷ vs) = cc (elems-items vs)

-- m[k], with Go's second result
unfoldable pub get : String → Map → Option Value
get k empty = none
get k (entry j v m) = if j == k then some v else get k m

-- m[k] = v
unfoldable pub put : String → Value → Map → Map
put k v empty = entry k v empty
put k v (entry j w m) = if j == k then entry k v m else entry j w (put k v m)

-- delete(m, k)
unfoldable pub erase : String → Map → Map
erase k empty = empty
erase k (entry j v m) = let rest = erase k m in if j == k then rest else entry j v rest

pub get-put :
    (k j : String) (v : Value) (m : Map) → get j (put k v m) ≡ (if k == j then some v else get j m)
unfolding get put
get-put k j v empty = refl
get-put k j v (entry i w m) = ground (arith, eq_iff k j, eq_iff i k, eq_iff i j, get-put k j v m)

pub get-erase : (k j : String) (m : Map) → get j (erase k m) ≡ (if k == j then none else get j m)
unfolding get erase
get-erase k j empty = ground arith
get-erase k j (entry i w m) = ground (arith, eq_iff k j, eq_iff i k, eq_iff i j, get-erase k j m)

pub erase-put :
    (k j : String) (v : Value) (m : Map)
    → erase k (put j v m) ≡ (if j == k then erase k m else put j v (erase k m))
unfolding erase put
erase-put k j v empty = ground arith
erase-put k j v (entry i w m) =
    ground (arith, eq_iff k j, eq_iff j k, eq_iff i k, eq_iff i j, erase-put k j v m)

-- v.(map[string]any)
abbrev pub as_map : Value → Option Map
as_map (obj m) = some m
as_map _ = none

-- m[k].([]any)
abbrev pub as_array : Option Value → Option (List Value)
as_array (some (arr xs)) = some (elems xs)
as_array _ = none

-- s, _ := m[k].(string)
abbrev pub as_text : Option Value → Text
as_text (some (str s)) = s
as_text _ = []

-- m[k] == "literal", an `any` against a string
abbrev pub is_text : Option Value → Text → Bool
is_text (some (str s)) t = s == t
is_text _ t = false
