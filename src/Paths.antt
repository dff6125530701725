-- ===== src/Paths.antt =====
-- path/filepath on Unix, as the two programs use it: Clean, Dir, Base and Abs.
pub mod Ancestors
pub mod Termination
use egress_router.Common.{
  ℕ, zero, suc, Bool, true, false, ◌||◌, Option, none, some, List, [], ◌∷◌, ◌++◌, reverse, ◌≡◌,
  refl, Text, lit, ◌==◌, nat_eq, text_eq, text_beq, if◌then◌else◌, split, join,
}

-- b'/'
abbrev pub slash : ℕ
slash = 47

abbrev pub up : Bool → List Text → List Text
up rooted [] = if rooted then [] else lit ".." ∷ []
up rooted (c ∷ cs) = if c == lit ".." then lit ".." ∷ c ∷ cs else cs

-- The components that are kept, the last one first.
abbrev pub push_component : Bool → Text → List Text → List Text
push_component rooted c stack =
    if c == [] || c == lit "." then stack else if c == lit ".." then up rooted stack else c ∷ stack

unfoldable pub reduce : Bool → List Text → List Text → List Text
reduce rooted stack [] = stack
reduce rooted stack (c ∷ cs) = reduce rooted (push_component rooted c stack) cs

abbrev pub is_rooted : Text → Bool
is_rooted [] = false
is_rooted (c ∷ s) = c == slash

abbrev pub or_dot : Text → Text
or_dot [] = lit "."
or_dot (c ∷ s) = c ∷ s

abbrev pub shown : Bool → List Text → Text
shown rooted cs = if rooted then slash ∷ join (lit "/") cs else or_dot (join (lit "/") cs)

-- filepath.Clean
unfoldable pub clean : Text → Text
clean path = shown (is_rooted path) (reverse (reduce (is_rooted path) [] (split slash path)))

-- path[:i+1] where i is the last slash
unfoldable pub up_to_slash : Text → Text
up_to_slash [] = []
up_to_slash (c ∷ s) =
    let rest = up_to_slash s in if rest == [] then if c == slash then c ∷ [] else [] else c ∷ rest

-- filepath.Dir
unfoldable pub dir : Text → Text
dir path = clean (up_to_slash path)

-- The last component: what stands behind the last slash that does not end the path.
abbrev last_of : List Text → Text
last_of [] = []
last_of (c ∷ cs) = let rest = last_of cs in if rest == [] then c else rest

-- filepath.Base
unfoldable pub base_name : Text → Text
base_name [] = lit "."
base_name (c ∷ s) = let last = last_of (split slash (c ∷ s)) in if last == [] then lit "/" else last

-- filepath.Abs, with the result of os.Getwd
unfoldable pub absolute : Option Text → Text → Option Text
absolute getwd path =
    if is_rooted path
    then some (clean path)
    else elim getwd [ none ↦ none | some wd ↦ some (clean (wd ++ (lit "/" ++ path))) ]

-- The paths of the loop `for path := abs; ; path = filepath.Dir(path)`, which ends at a path that is
-- its own directory.
unfoldable pub ancestors : ℕ → Text → List Text
ancestors zero path = []
ancestors (suc rounds) path =
    let rest = ancestors rounds (dir path) in path ∷ (if path == dir path then [] else rest)

paths_tests :
    (clean (lit "/a/./b//../c/") ≡ lit "/a/c")
    × (clean (lit "../x/..") ≡ lit "..")
    × (clean [] ≡ lit ".")
    × (dir (lit "runtime/catalog-shadow.json") ≡ lit "runtime")
    × (dir (lit "x") ≡ lit ".")
    × (dir (lit "/x") ≡ lit "/")
    × (base_name (lit "runtime/catalog-shadow.json//") ≡ lit "catalog-shadow.json")
    × (base_name (lit "//") ≡ lit "/")
    × (absolute (some (lit "/w")) (lit "../x") ≡ some (lit "/x"))
    × (ancestors 9 (lit "/a/b") ≡ lit "/a/b" ∷ lit "/a" ∷ lit "/" ∷ [])
unfolding clean dir base_name absolute ancestors reduce up_to_slash split join lit text_beq
paths_tests = (refl, refl, refl, refl, refl, refl, refl, refl, refl, refl)
