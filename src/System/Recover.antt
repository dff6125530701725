-- ===== src/System/Recover.antt =====
-- A file that a failed run leaves as it was, or in a state that its error tells of.
use egress_router.Common.{
  Option, Text, ◌≡◌, ◌≢◌, ◌⊎◌, inl, inr, refl, sym, ap, ◌∙◌, Result, ok, err,
}
use mathlib.Core.Path.{subst}
use egress_router.System.{File, World, Io, ◌>>=◌, pure, remove, removing}
use egress_router.System.Frame.{Kept, Spares, Spared, remove-KeptBy}

module _ {E : Type 0} (r : Text) (Q : Option File → E → Type 0) where
  abbrev pub Recovers : {A : Type 0} → World → World × Result E A → Type 0
  Recovers w (w', ok _) = Unit {0}
  Recovers w (w', err e) = (w'.files r ≡ w.files r) ⊎ Q (w'.files r) e

  abbrev pub Recovering : {A : Type 0} → Io E A → Type 0
  Recovering m = (w : World) → Recovers w (m w)

  abbrev pub Told : {A : Type 0} → World × Result E A → Type 0
  Told (w', ok _) = Unit {0}
  Told (w', err e) = Q (w'.files r) e

  after :
      {B : Type 0} (w w' : World) (p : World × Result E B)
      → w'.files r ≡ w.files r
      → Recovers w' p
      → Recovers w p
  after w w' (w'', ok b) e s = tt
  after w w' (w'', err x) e (inl s) = inl (s ∙ e)
  after w w' (w'', err x) e (inr s) = inr s

  pub >>=-Recovering :
      {A B : Type 0} (m : Io E A) (f : A → Io E B)
      → Kept r m
      → ((w : World) (a : A) → (m w).1 ≡ ok a → Recovering (f a))
      → Recovering (m >>= f)
  >>=-Recovering {A} {B} m f h k w = step (m w) refl (h w)
    where
      step :
          (p : World × Result E A)
          → m w ≡ p
          → p.0.files r ≡ w.files r
          → Recovers w (◌>>=◌ {B = B} (λ _. p) f w)
      step (w', ok a) q e =
          after w w' (f a w') e (k w a (ap (λ (p : World × Result E A). p.1) q) w')
      step (w', err x) q e = inl e

  pub removing-Recovering :
      {A : Type 0} (p : Text) (m : Io E A) → r ≢ p → Recovering m → Recovering (removing p m)
  removing-Recovering {A} p m n h w = step (m w) (h w)
    where
      step : (q : World × Result E A) → Recovers w q → Recovers w ((remove p q.0).0, q.1)
      step (w', ok a) s = tt
      step (w', err x) (inl s) = inl (remove-KeptBy r p n w' ∙ s)
      step (w', err x) (inr s) = inr (subst (λ f. Q f x) (sym (remove-KeptBy r p n w')) s)

  -- A step that fails cleanly, and what follows it, whose failures its errors tell of.
  pub Spared-then :
      {A B : Type 0} (m : Io E A) (f : A → Io E B)
      → Spared r m
      → ((w : World) (a : A) → Told (f a w))
      → Recovering (m >>= f)
  Spared-then {A} {B} m f h k w = step (m w) (h w)
    where
      told : (p : World × Result E B) → Told p → Recovers w p
      told (w', ok b) s = tt
      told (w', err x) s = inr s

      step : (p : World × Result E A) → Spares r w p → Recovers w (◌>>=◌ {B = B} (λ _. p) f w)
      step (w', ok a) s = told (f a w') (k w' a)
      step (w', err x) s = inl s

  -- A last step that cannot fail and uses no file.
  pub Recovering-pure :
      {A B : Type 0} (m : Io E A) (b : A → B) → Recovering m → Recovering (m >>= λ a. pure (b a))
  Recovering-pure {A} {B} m b h w = step (m w) (h w)
    where
      step :
          (p : World × Result E A)
          → Recovers w p
          → Recovers w (◌>>=◌ {B = B} (λ _. p) (λ a. pure (b a)) w)
      step (w', ok a) s = tt
      step (w', err x) s = s
