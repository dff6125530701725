-- ===== src/System/Frame.antt =====
-- Which files a piece of code leaves alone.
use egress_router.Common.{
  ℕ, false, ◌≡◌, ◌≢◌, ◌⊎◌, inl, inr, refl, ap, ◌∙◌, arith, Text, text_eq, text_beq_iff, Result, ok,
  err,
}
use egress_router.System.{
  Fate, goes, fails, World, fate, Call, mkdir_all, chmod, write, close, sync, alive, remove, rename,
  temp_name, create_temp, read_file, Io, ◌>>=◌, pure, require, removing,
}

pub Fate-cases : (f : Fate) → ((s : Text) × (f ≡ goes s)) ⊎ ((s : Text) × (f ≡ fails s))
Fate-cases (goes s) = inl (s, refl)
Fate-cases (fails s) = inr (s, refl)

-- A step that succeeds hands its state on.
pub >>=-ok :
    {E A B : Type 0} (m : Io E A) (f : A → Io E B) (w : World) {b : B}
    → ((m >>= f) w).1 ≡ ok b
    → (a : A) × ((m w).1 ≡ ok a) × ((m >>= f) w ≡ f a (m w).0)
>>=-ok {E} {A} {B} m f w {b} h = step (m w) h
  where
    step :
        (p : World × Result E A)
        → (◌>>=◌ {B = B} (λ _. p) f w).1 ≡ ok b
        → (a : A) × (p.1 ≡ ok a) × (◌>>=◌ {B = B} (λ _. p) f w ≡ f a p.0)
    step (w', ok a) e = (a, refl, refl)
    step (w', err x) e = ground arith

module _ (r : Text) where
  abbrev pub KeptBy : Call → Type 0
  KeptBy call = (w : World) → (call w).0.files r ≡ w.files r

  abbrev pub Kept : {E A : Type 0} → Io E A → Type 0
  Kept m = (w : World) → (m w).0.files r ≡ w.files r

  pub mkdir_all-KeptBy : (dir : Text) → KeptBy (mkdir_all dir)
  unfolding mkdir_all
  mkdir_all-KeptBy dir w = ground arith

  pub chmod-KeptBy : (p : Text) (mode : ℕ) → r ≢ p → KeptBy (chmod p mode)
  unfolding chmod
  chmod-KeptBy p mode n w = ground (arith, text_beq_iff r p)

  pub write-KeptBy : (p s : Text) → r ≢ p → KeptBy (write p s)
  unfolding write
  write-KeptBy p s n w = ground (arith, text_beq_iff r p)

  pub close-KeptBy : (p : Text) → KeptBy (close p)
  unfolding close
  close-KeptBy p w = ground arith

  pub sync-KeptBy : (p : Text) → KeptBy (sync p)
  unfolding sync
  sync-KeptBy p w = ground arith

  pub alive-KeptBy : KeptBy alive
  unfolding alive
  alive-KeptBy w = ground arith

  pub remove-KeptBy : (p : Text) → r ≢ p → KeptBy (remove p)
  unfolding remove
  remove-KeptBy p n w = ground (arith, text_beq_iff r p)

  pub rename-KeptBy : (p q : Text) → r ≢ p → r ≢ q → KeptBy (rename p q)
  unfolding rename
  rename-KeptBy p q n k w = ground (arith, text_beq_iff r p, text_beq_iff r q)

  pub rename_failed :
      (p q : Text) (w : World) → (rename p q w).1 ≡ false → (rename p q w).0.files r ≡ w.files r
  unfolding rename
  rename_failed p q w h = ground arith

  pub create_temp-Kept :
      (dir prefix : Text)
      → ((random : Text) → r ≢ temp_name dir prefix random)
      → (w : World) → (create_temp dir prefix w).0.files r ≡ w.files r
  unfolding create_temp
  create_temp-Kept dir prefix n w = elim (Fate-cases (fate w)) [
    | inl (random, e) ↦ ground (arith, e, n random, text_beq_iff r (temp_name dir prefix random))
    | inr (left, e) ↦ ground (arith, e)
  ]

  pub read_file-Kept : (p : Text) (w : World) → (read_file p w).0.files r ≡ w.files r
  unfolding read_file
  read_file-Kept p w = ground arith

  pub >>=-Kept :
      {E A B : Type 0} (m : Io E A) (f : A → Io E B)
      → Kept m
      → ((w : World) (a : A) → (m w).1 ≡ ok a → Kept (f a))
      → Kept (m >>= f)
  >>=-Kept {E} {A} {B} m f h k w = step (m w) refl (h w)
    where
      step :
          (p : World × Result E A)
          → m w ≡ p
          → p.0.files r ≡ w.files r
          → (◌>>=◌ {B = B} (λ _. p) f w).0.files r ≡ w.files r
      step (w', ok a) q e = k w a (ap (λ (p : World × Result E A). p.1) q) w' ∙ e
      step (w', err x) q e = e

  -- A file that a run leaves alone unless it succeeds.
  abbrev pub Spares : {E A : Type 0} → World → World × Result E A → Type 0
  Spares w (w', ok _) = Unit {0}
  Spares w (w', err _) = w'.files r ≡ w.files r

  pub Spares-err :
      {E A : Type 0} (w : World) (p : World × Result E A) {e : E}
      → Spares w p
      → p.1 ≡ err e
      → p.0.files r ≡ w.files r
  Spares-err w (w', ok a) h k = ground arith
  Spares-err w (w', err x) h k = h

  abbrev pub Spared : {E A : Type 0} → Io E A → Type 0
  Spared m = (w : World) → Spares w (m w)

  pub Kept-Spared : {E A : Type 0} (m : Io E A) → Kept m → Spared m
  Kept-Spared {E} {A} m h w = step (m w) (h w)
    where
      step : (p : World × Result E A) → p.0.files r ≡ w.files r → Spares w p
      step (w', ok a) e = tt
      step (w', err x) e = e

  pub >>=-Spared :
      {E A B : Type 0} (m : Io E A) (f : A → Io E B)
      → Kept m
      → ((w : World) (a : A) → (m w).1 ≡ ok a → Spared (f a))
      → Spared (m >>= f)
  >>=-Spared {E} {A} {B} m f h k w = step (m w) refl (h w)
    where
      after :
          (w' : World) (p : World × Result E B) → w'.files r ≡ w.files r → Spares w' p → Spares w p
      after w' (w'', ok b) e s = tt
      after w' (w'', err x) e s = s ∙ e

      step :
          (p : World × Result E A)
          → m w ≡ p
          → p.0.files r ≡ w.files r
          → Spares w (◌>>=◌ {B = B} (λ _. p) f w)
      step (w', ok a) q e = after w' (f a w') e (k w a (ap (λ (p : World × Result E A). p.1) q) w')
      step (w', err x) q e = e

  -- A last step that cannot fail and uses no file.
  pub Spared-pure :
      {E A B : Type 0} (m : Io E A) (b : A → B) → Spared m → Spared (m >>= λ a. pure (b a))
  Spared-pure {E} {A} {B} m b h w = step (m w) (h w)
    where
      step :
          (p : World × Result E A)
          → Spares w p
          → Spares w (◌>>=◌ {E = E} {B = B} (λ _. p) (λ a. pure (b a)) w)
      step (w', ok a) s = tt
      step (w', err x) s = s

  pub removing-Spared :
      {E A : Type 0} (p : Text) (m : Io E A) → r ≢ p → Spared m → Spared (removing p m)
  removing-Spared {E} {A} p m n h w = step (m w) (h w)
    where
      step : (q : World × Result E A) → Spares w q → Spares w ((remove p q.0).0, q.1)
      step (w', ok a) s = tt
      step (w', err x) s = remove-KeptBy p n w' ∙ s

  pub require-Kept : {E : Type 0} (call : Call) (e : E) → KeptBy call → Kept (require call e)
  require-Kept call e h w = h w

  pub removing-Kept : {E A : Type 0} (p : Text) (m : Io E A) → r ≢ p → Kept m → Kept (removing p m)
  removing-Kept p m n h w = remove-KeptBy p n (m w).0 ∙ h w
