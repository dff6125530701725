-- ===== src/System/Temporary.antt =====
-- New temporary files: their names are fresh.
use egress_router.Common.{
  true, Option, none, some, ◌≡◌, ◌≢◌, inl, inr, refl, sym, ap, Option-cases, ◌∙◌, arith, Text,
  text_eq, text_beq_iff, Result, ok, err,
}
use mathlib.Core.Path.{subst}
use egress_router.System.{
  File, goes, fails, World, fate, set_file, rename, temp_name, new_file, create_temp, Io, ◌>>=◌,
}
use egress_router.System.Frame.{Fate-cases}

-- What a successful `create_temp` has done.
pub record IsCreated (dir prefix t : Text) (w w' : World) : Type 0 where
  pub random : Text
  pub named : t ≡ temp_name dir prefix random
  pub fresh : w.files t ≡ none
  pub made : w'.files t ≡ some new_file
  pub others : (r : Text) → r ≢ t → w'.files r ≡ w.files r

none-ne-some : {A : Type 0} {a : A} → none ≢ some a
none-ne-some e = ground arith

create_temp_fails :
    (dir prefix : Text) (w : World) {left t : Text}
    → fate w ≡ fails left
    → (create_temp dir prefix w).1 ≢ some t
unfolding create_temp
create_temp_fails dir prefix w e h = ground (arith, e)

module _ (dir prefix : Text) (w : World) {random : Text} (e : fate w ≡ goes random) where
  abbrev name : Text
  name = temp_name dir prefix random

  create_temp_goes :
      w.files name ≡ none → create_temp dir prefix w ≡ (set_file name (some new_file) w, some name)
  unfolding create_temp
  create_temp_goes free = rw (e, create_temp) (rw free)

  create_temp_taken : {f : File} → w.files name ≡ some f → (create_temp dir prefix w).1 ≡ none
  unfolding create_temp
  create_temp_taken taken = rw (e, create_temp) (rw taken)

pub create_temp-none :
    (r dir prefix : Text) (w : World)
    → (create_temp dir prefix w).1 ≡ none
    → (create_temp dir prefix w).0.files r ≡ w.files r
unfolding create_temp
create_temp-none r dir prefix w h = ground arith

set_file_self : (p : Text) (f : Option File) (w : World) → (set_file p f w).files p ≡ f
set_file_self p f w = rw ((text_beq_iff p p).1 refl)

set_file_ne :
    (p r : Text) (f : Option File) (w : World) → r ≢ p → (set_file p f w).files r ≡ w.files r
set_file_ne p r f w n = ground (arith, text_beq_iff r p)

pub create_temp-IsCreated :
    (dir prefix : Text) (w : World) {t : Text}
    → (create_temp dir prefix w).1 ≡ some t
    → IsCreated dir prefix t w (create_temp dir prefix w).0
create_temp-IsCreated dir prefix w {t} h = elim (Fate-cases (fate w)) [
  | inr (left, e) ↦ absurd (create_temp_fails dir prefix w e h)
  | inl (random, e) ↦ elim (Option-cases (w.files (temp_name dir prefix random))) [
    | inr (f, taken) ↦ absurd (none-ne-some (sym (create_temp_taken dir prefix w e taken) ∙ h))
    | inl free ↦
        let done = create_temp_goes dir prefix w e free in
        let same : temp_name dir prefix random ≡ t =
          cc (ap (λ (p : World × Option Text). p.1) done, h) in
        rw done (
          subst
            (λ u.
              IsCreated dir prefix u w (set_file (temp_name dir prefix random) (some new_file) w))
            same
            (record {
              random = random;
              named = refl;
              fresh = free;
              made = set_file_self (temp_name dir prefix random) (some new_file) w;
              others = λ r n. set_file_ne (temp_name dir prefix random) r (some new_file) w n;
            }))
  ]
]

pub rename-target :
    (p q : Text) (w : World) {f : File}
    → w.files p ≡ some f
    → (rename p q w).1 ≡ true
    → (rename p q w).0.files q ≡ some f
unfolding rename
rename-target p q w e h = ground (arith, e, text_beq_iff q q)

-- A file that a run leaves with a given content and mode, if it had them before.
module _ (r : Text) (f : File) where
  abbrev pub Stays : {E A : Type 0} → Io E A → Type 0
  Stays m = (w : World) → w.files r ≡ some f → (m w).0.files r ≡ some f

  pub >>=-Stays :
      {E A B : Type 0} (m : Io E A) (g : A → Io E B)
      → Stays m
      → ((w : World) (a : A) → w.files r ≡ some f → (m w).1 ≡ ok a → Stays (g a))
      → Stays (m >>= g)
  >>=-Stays {E} {A} {B} m g h k w e = step (m w) refl (h w e)
    where
      step :
          (p : World × Result E A)
          → m w ≡ p
          → p.0.files r ≡ some f
          → (◌>>=◌ {B = B} (λ _. p) g w).0.files r ≡ some f
      step (w', ok a) q e' = k w a e (ap (λ (p : World × Result E A). p.1) q) w' e'
      step (w', err x) q e' = e'

  -- A new name is not that of a file that is there.
  pub exists-ne :
      {dir prefix t : Text} {w w' : World}
      → IsCreated dir prefix t w w'
      → w.files r ≡ some f
      → r ≢ t
  exists-ne {w} c e n = none-ne-some (sym c.fresh ∙ ap w.files (sym n) ∙ e)

  pub create_temp-Stays :
      (dir prefix : Text) (w : World)
      → w.files r ≡ some f
      → (create_temp dir prefix w).0.files r ≡ some f
  create_temp-Stays dir prefix w e = elim (Option-cases (create_temp dir prefix w).1) [
    | inl h ↦ create_temp-none r dir prefix w h ∙ e
    | inr (t, h) ↦ let c = create_temp-IsCreated dir prefix w h in c.others r (exists-ne c e) ∙ e
  ]
