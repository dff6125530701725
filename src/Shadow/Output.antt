-- ===== src/Shadow/Output.antt =====
-- `CheckOutput` of shadow.go: where the candidate may be published.
use mathlib.Core.Path.{subst}
use egress_router.Common.{
  ℕ, ◌+◌, Bool, true, false, not, Option, none, some, List, [], ◌∷◌, ◌≡◌, ◌≢◌, ◌⊎◌, inl, inr, refl,
  sym, ap, ◌∙◌, arith, Text, ◌==◌, nat_eq, text_eq, text_beq_iff, if◌then◌else◌, length, All,
  Result, ok, err, Bool-cases,
}
use egress_router.System.{
  World, fate, tick, Entry, link, directory, special, Info, missing, unknown, regular, other,
  info_of, lstat, Io, ◌>>=◌, ◌>>◌, lift,
}
use egress_router.System.Later.{IsLater, same_time, Later, >>=-Later, tick-Later}
use egress_router.System.Frame.{Fate-cases, Kept, >>=-Kept, >>=-ok}
use egress_router.Paths.{ancestors}
use egress_router.Paths.Termination.{IsRootedWd, path_of, paths_above, ancestors-absolute}
use egress_router.Paths.Ancestors.{IsProper}
use egress_router.Shadow.Place.{output_path, IsPlace, output_path-IsPlace}
use egress_router.Shadow.Defs.{Platform, ShadowError, unsafe_output_path}
use egress_router.Shadow.Alias.{
  check_alias, check_alias-Kept, IsUnaliased, check_alias-IsUnaliased, IsUnaliased-earlier,
}

-- What may stand at the output, and what at a directory above it.
abbrev pub is_safe : Bool → Info → Bool
is_safe at_output missing = at_output
is_safe at_output unknown = false
is_safe at_output regular = at_output
is_safe at_output (other link) = false
is_safe at_output (other directory) = not at_output
is_safe at_output (other special) = false

unfoldable pub check_path : Text → Text → Io ShadowError (Unit {0})
check_path abs path w =
    let (w', info) = lstat path w in
    (w', if is_safe (path == abs) info then ok tt else err unsafe_output_path)

-- The loop `for path := abs; ; path = filepath.Dir(path)`
unfoldable pub check_paths : Text → List Text → Io ShadowError (Unit {0})
check_paths abs [] w = (w, ok tt)
check_paths abs (path ∷ paths) w = (check_path abs path >>= λ _. check_paths abs paths) w

-- `CheckOutput`; the loop has at most one round for each byte of the path.
unfoldable pub check_output : Platform → Text → Text → Io ShadowError (Unit {0})
check_output sys base output = do
  abs ← lift (output_path sys.getwd base output)
  check_paths abs (ancestors (length abs) abs)
  check_alias abs base

lstat-tick : (p : Text) (w : World) → (lstat p w).0 ≡ tick w
unfolding lstat
lstat-tick p w = elim (Fate-cases (fate w)) [
  | inl (s, e) ↦ rw (e, lstat) refl
  | inr (s, e) ↦ rw (e, lstat) refl
]

pub check_path-tick : (abs p : Text) (w : World) → (check_path abs p w).0 ≡ tick w
unfolding check_path
check_path-tick abs p w = lstat-tick p w

check_paths-Kept : (r abs : Text) (paths : List Text) → Kept r (check_paths abs paths)
unfolding check_paths
check_paths-Kept r abs [] w = refl
check_paths-Kept r abs (p ∷ ps) w =
    >>=-Kept r (check_path abs p) (λ _. check_paths abs ps)
      (λ w'. ap (λ (u : World). u.files r) (check_path-tick abs p w'))
      (λ _ _ _. check_paths-Kept r abs ps) w

-- The check changes no file.
pub check_output-Kept :
    (sys : Platform) (base output r : Text) → Kept r (check_output sys base output)
unfolding check_output
check_output-Kept sys base output r =
    >>=-Kept r (lift (output_path sys.getwd base output))
      (λ abs. check_paths abs (ancestors (length abs) abs) >>= λ _. check_alias abs base)
      (λ _. refl)
      (λ _ abs _.
        >>=-Kept r (check_paths abs (ancestors (length abs) abs)) (λ _. check_alias abs base)
          (check_paths-Kept r abs (ancestors (length abs) abs))
          (λ _ _ _. check_alias-Kept r abs base))

-- The output is no link and no directory, and what is above it is a directory.
abbrev pub IsAt : World → Text → Text → Type 0
IsAt w abs p = ((p ≡ abs) × (w.others p ≡ none)) ⊎ ((p ≢ abs) × (w.others p ≡ some directory))

is_safe-IsAt :
    (w : World) (abs p : Text) (o : Option Entry)
    → w.others p ≡ o
    → is_safe (p == abs) (info_of o (w.files p)) ≡ true
    → IsAt w abs p
is_safe-IsAt w abs p o e h = elim (Bool-cases (p == abs)) [
  | inl at ↦ inl ((text_beq_iff p abs).0 at, e ∙ at_output o (rw at at h))
  | inr at ↦ inr (λ q. ground (arith, q, at, text_beq_iff p abs), e ∙ above o (rw at at h))
]
  where
    at_output : (x : Option Entry) → is_safe true (info_of x (w.files p)) ≡ true → x ≡ none
    at_output none k = refl
    at_output (some link) k = ground arith
    at_output (some directory) k = ground arith
    at_output (some special) k = ground arith

    above : (x : Option Entry) → is_safe false (info_of x (w.files p)) ≡ true → x ≡ some directory
    above none k = ground arith
    above (some link) k = ground arith
    above (some directory) k = refl
    above (some special) k = ground arith

check_path-IsAt : (abs p : Text) (w : World) → (check_path abs p w).1 ≡ ok tt → IsAt w abs p
unfolding check_path lstat
check_path-IsAt abs p w h = elim (Fate-cases (fate w)) [
  | inl (s, e) ↦ is_safe-IsAt w abs p (w.others p) refl (ground (arith, e, h))
  | inr (s, e) ↦ ground (arith, e, h)
]

check_paths-IsAt :
    (abs : Text) (paths : List Text) (w : World)
    → (check_paths abs paths w).1 ≡ ok tt
    → All (IsAt w abs) paths
unfolding check_paths
check_paths-IsAt abs [] w h = tt
check_paths-IsAt abs (p ∷ ps) w h =
    let (_, first, same) = >>=-ok (check_path abs p) (λ _. check_paths abs ps) w h in
    let rest = sym (ap (λ (q : World × Result ShadowError (Unit {0})). q.1) same) ∙ h in
    (
      check_path-IsAt abs p w first,
      check_paths-IsAt abs ps (tick w)
          (subst (λ (u : World). (check_paths abs ps u).1 ≡ ok tt) (check_path-tick abs p w) rest),
    )

pub check_paths-Later : (abs : Text) (paths : List Text) → Later (check_paths abs paths)
unfolding check_paths
check_paths-Later abs [] w = same_time w
check_paths-Later abs (p ∷ ps) w =
    >>=-Later (check_path abs p) (λ _. check_paths abs ps)
      (λ u. subst (IsLater u) (sym (check_path-tick abs p u)) (tick-Later u))
      (λ _. check_paths-Later abs ps) w

-- A path that may be published.
pub record IsSafe (w : World) (getwd : Option Text) (base output : Text) : Type 0 where
  pub components : List Text
  pub proper : All IsProper components
  pub place : IsPlace getwd base output (path_of components)
  pub checked : All (IsAt w (path_of components)) (paths_above components)
  pub unaliased : IsUnaliased w (path_of components) base

-- The loop has rounds enough.
abbrev AreVisited : ℕ → Text → Type 0
AreVisited rounds abs =
    (rs : List Text) × All IsProper rs
    × (abs ≡ path_of rs)
    × (ancestors rounds abs ≡ paths_above rs)

visited : {abs : Text} → AreVisited (length abs + 0) abs → AreVisited (length abs) abs
visited {abs} h = subst (λ n. AreVisited n abs) (omega arith) h

placed-IsSafe :
    (w : World) (getwd : Option Text) (base output : Text) {abs : Text}
    → IsPlace getwd base output abs
    → All (IsAt w abs) (ancestors (length abs) abs)
    → AreVisited (length abs) abs
    → IsUnaliased w abs base
    → IsSafe w getwd base output
placed-IsSafe w getwd base output {abs} place all (rs, proper, same, list) alone = record {
  components = rs;
  proper = proper;
  place = subst (λ a. IsPlace getwd base output a) same place;
  unaliased = subst (λ a. IsUnaliased w a base) same alone;
  checked = subst (λ a. All (IsAt w a) (paths_above rs)) same (subst (All (IsAt w abs)) list all);
}

-- A path that `check_output` accepts has the base name catalog-shadow.json and is not the path of
-- the base config, nor the same file as the base config by the numbers that two successive calls
-- of os.Stat give, where both succeed; in the state of the files it is no link, no directory and
-- no special file, and every path above it, down to the root, is a directory and no link. os.Getwd
-- gives a rooted path.
pub check_output-IsSafe :
    (sys : Platform) (base output : Text) (w : World)
    → IsRootedWd sys.getwd
    → (check_output sys base output w).1 ≡ ok tt
    → IsSafe w sys.getwd base output
unfolding check_output
check_output-IsSafe sys base output w r h =
    let then_alias =
      λ (abs : Text). check_paths abs (ancestors (length abs) abs) >>= λ _. check_alias abs base in
    let (abs, named, same) = >>=-ok (lift (output_path sys.getwd base output)) then_alias w h in
    let walk = check_paths abs (ancestors (length abs) abs) in
    let (_, walked, same₁) =
      >>=-ok walk (λ _. check_alias abs base) w
        (sym (ap (λ (q : World × Result ShadowError (Unit {0})). q.1) same) ∙ h) in
    let alone =
      check_alias-IsUnaliased abs base (walk w).0
        (sym (ap (λ (q : World × Result ShadowError (Unit {0})). q.1) (same ∙ same₁)) ∙ h) in
    let place = output_path-IsPlace sys.getwd base output named in
    placed-IsSafe w sys.getwd base output place
      (check_paths-IsAt abs (ancestors (length abs) abs) w walked)
      (visited (ancestors-absolute sys.getwd output 0 r place.known))
      (IsUnaliased-earlier (check_paths-Later abs (ancestors (length abs) abs) w) alone)
