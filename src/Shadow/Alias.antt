-- ===== src/Shadow/Alias.antt =====
-- The test of `CheckOutput` for the same file: hard links.
use mathlib.Core.Path.{subst}
use egress_router.Common.{
  ℕ, ◌+◌, Option, none, some, ◌≡◌, ◌≢◌, inl, inr, refl, sym, ap, ◌∙◌, arith, Text, ◌==◌, nat_eq,
  text_eq, if◌then◌else◌, Result, ok, err, ◌≤◌, nat_beq_iff,
}
use egress_router.System.{World, fate, tick, stat, Io, Fate, goes, fails}
use egress_router.System.Later.{IsLater}
use egress_router.System.Frame.{Fate-cases, Kept}
use egress_router.Shadow.Defs.{ShadowError, unsafe_output_path}

abbrev pub same_file : ℕ → Option ℕ → Result ShadowError (Unit {0})
same_file i none = ok tt
same_file i (some j) = if i == j then err unsafe_output_path else ok tt

-- os.SameFile
unfoldable pub check_alias : Text → Text → Io ShadowError (Unit {0})
check_alias abs base w =
    let (w₁, out) = stat abs w in
    elim out [
      | none ↦ (w₁, ok tt)
      | some i ↦ let (w₂, in_base) = stat base w₁ in (w₂, same_file i in_base)
    ]

stat-Kept : (r p : Text) (w : World) → (stat p w).0.files r ≡ w.files r
unfolding stat
stat-Kept r p w = ground arith

pub check_alias-Kept : (r abs base : Text) → Kept r (check_alias abs base)
unfolding check_alias
check_alias-Kept r abs base w = ground (arith, stat-Kept r abs w, stat-Kept r base (stat abs w).0)

-- The file that a path leads to at a call, where the call that asks for it does not fail.
abbrev pub led_to : (ℕ → Fate) → (ℕ → Text → Option ℕ) → ℕ → Text → Option ℕ
led_to plan inodes call path = elim (plan call) [ goes _ ↦ inodes call path | fails _ ↦ none ]

-- The output and the base config are not one file, such as two hard links of it: two calls one after
-- the other do not give the same number for both.
pub record IsUnaliased (w : World) (abs base : Text) : Type 0 where
  pub call : ℕ
  pub after : w.calls ≤ call
  pub apart :
      (i : ℕ)
      → led_to w.plan w.inodes call abs ≡ some i
      → led_to w.plan w.inodes (call + 1) base ≢ some i

stat-led_to : (p : Text) (w : World) → stat p w ≡ (tick w, led_to w.plan w.inodes w.calls p)
unfolding stat
stat-led_to p w = elim (Fate-cases (fate w)) [
  | inl (s, e) ↦ rw (e, stat, led_to) refl
  | inr (s, e) ↦ rw (e, stat, led_to) refl
]

same_file-ok : (i : ℕ) (o : Option ℕ) → same_file i o ≡ ok tt → o ≢ some i
same_file-ok i none h e = ground arith
same_file-ok i (some j) h e = ground (arith, nat_beq_iff i j)

-- `check_alias` behind its first call.
abbrev with_base : Text → World × Option ℕ → Result ShadowError (Unit {0})
with_base base (u, none) = ok tt
with_base base (u, some i) = same_file i (stat base u).1

check_alias-with_base :
    (abs base : Text) (w : World) → (check_alias abs base w).1 ≡ with_base base (stat abs w)
unfolding check_alias
check_alias-with_base abs base w = step (stat abs w)
  where
    step :
        (p : World × Option ℕ)
        → (elim p.1 as (λ _. World × Result ShadowError (Unit {0})) [
          | none ↦ (p.0, ok tt)
          | some i ↦ let (w₂, in_base) = stat base p.0 in (w₂, same_file i in_base)
        ]).1
          ≡ with_base base p
    step (u, none) = refl
    step (u, some i) = refl

pub check_alias-IsUnaliased :
    (abs base : Text) (w : World) → (check_alias abs base w).1 ≡ ok tt → IsUnaliased w abs base
check_alias-IsUnaliased abs base w h = record {
  call = w.calls;
  after = omega arith;
  apart = λ i e q.
      let seen = ap (with_base base) (stat-led_to abs w ∙ ap (λ o. (tick w, o)) e) in
      same_file-ok i (stat base (tick w)).1 (sym seen ∙ sym (check_alias-with_base abs base w) ∙ h)
        (ap (λ (p : World × Option ℕ). p.1) (stat-led_to base (tick w)) ∙ q);
}

pub IsUnaliased-earlier :
    {w w' : World} {abs base : Text}
    → IsLater w w'
    → IsUnaliased w' abs base
    → IsUnaliased w abs base
IsUnaliased-earlier {w} {w'} {abs} {base} l h = record {
  call = h.call;
  after = omega (arith, l.calls, h.after);
  apart =
      subst
        (λ (plan : ℕ → Fate).
          (i : ℕ)
          → led_to plan w.inodes h.call abs ≡ some i
          → led_to plan w.inodes (h.call + 1) base ≢ some i)
        l.plan
        (subst
          (λ (inodes : ℕ → Text → Option ℕ).
            (i : ℕ)
            → led_to w'.plan inodes h.call abs ≡ some i
            → led_to w'.plan inodes (h.call + 1) base ≢ some i)
          l.inodes h.apart);
}
