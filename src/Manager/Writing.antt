-- ===== src/Manager/Writing.antt =====
-- `writeJSONAtomic`: the file is replaced whole or not at all, and no other file changes.
use egress_router.Common.{
  ℕ, true, some, ◌++◌, ◌≡◌, ◌≢◌, inl, inr, refl, sym, ap, ◌∙◌, arith, Text, lit, text_eq,
  text_beq_iff, Result, ok, err, or_err-eq-ok, Bool-cases,
}
use egress_router.Paths.{dir}
use egress_router.System.{
  File, World, mkdir_all, chmod, write, rename, temp_name, new_file, Io, ◌>>=◌, ◌>>◌, require,
  removing,
}
use egress_router.System.Frame.{
  Kept, Spared, Spares-err, >>=-ok, mkdir_all-KeptBy, chmod-KeptBy, write-KeptBy, close-KeptBy,
  remove-KeptBy, rename-KeptBy, rename_failed, create_temp-Kept, >>=-Kept, removing-Kept,
  >>=-Spared, removing-Spared,
}
use egress_router.System.Temporary.{
  IsCreated, create_temp-IsCreated, rename-target, Stays, >>=-Stays, exists-ne, create_temp-Stays,
}
use egress_router.Manager.Defs.{State, Platform}
use egress_router.Manager.Files.{
  FillError, no_mode, no_data, fill, fill_or, created, WriteError, write_error, replace_file,
  write_json_atomic,
}

-- A path that is no temporary file of the manager.
pub record IsPlain (r : Text) : Type 0 where
  pub no_config : (dir random : Text) → r ≢ temp_name dir (lit ".config-") random
  pub no_tmp : (dir random : Text) → r ≢ temp_name dir (lit ".tmp-") random

fill-Kept : (r t : Text) (mode : ℕ) (s : Text) → r ≢ t → Kept r (fill t mode s)
unfolding fill
fill-Kept r t mode s n w = ground (
  arith,
  chmod-KeptBy r t mode n w,
  write-KeptBy r t s n (chmod t mode w).0,
  close-KeptBy r t (chmod t mode w).0,
  close-KeptBy r t (write t s (chmod t mode w).0).0,
)

pub fill_or-Kept :
    {E : Type 0} (r t : Text) (mode : ℕ) (s : Text) (e e' : E)
    → r ≢ t
    → Kept r (fill_or t mode s e e')
fill_or-Kept r t mode s e e' n w = fill-Kept r t mode s n w

pub chmod-done :
    (t : Text) (mode : ℕ) (w : World) {f : File}
    → w.files t ≡ some f
    → (chmod t mode w).1 ≡ true
    → (chmod t mode w).0.files t ≡ some (record f { mode = mode })
unfolding chmod
chmod-done t mode w e h = ground (arith, e, text_beq_iff t t)

pub write-done :
    (t s : Text) (w : World) {f : File}
    → w.files t ≡ some f
    → (write t s w).1 ≡ true
    → (write t s w).0.files t ≡ some (record f { content = s })
unfolding write
write-done t s w e h = ground (arith, e, text_beq_iff t t)

-- A file that is filled has the mode and the bytes asked for.
pub fill-filled :
    (t : Text) (mode : ℕ) (s : Text) (w : World) {f : File}
    → w.files t ≡ some f
    → (fill t mode s w).1 ≡ ok tt
    → (fill t mode s w).0.files t ≡ some (record { content = s; mode = mode })
unfolding fill
fill-filled t mode s w {f} e h = ground (
  arith,
  chmod-done t mode w e,
  write-done t s (chmod t mode w).0 {f = record f { mode = mode }},
  close-KeptBy t t (write t s (chmod t mode w).0).0,
)

pub created-IsCreated :
    {E : Type 0} (dir prefix : Text) (e : E) (w : World) {t : Text}
    → (created dir prefix e w).1 ≡ ok t
    → IsCreated dir prefix t w (created dir prefix e w).0
created-IsCreated dir prefix e w h = create_temp-IsCreated dir prefix w (or_err-eq-ok _ e h)

replace_file_failed : (r t : Text) → r ≢ t → Spared r (replace_file r t)
unfolding replace_file
replace_file_failed r t n w = elim (Bool-cases (rename t r w).1) [
  | inl e ↦ rw e tt
  | inr e ↦ rw e (rename_failed r t r w e)
]

pub fill_or_ok :
    {E : Type 0} (r : Result FillError (Unit {0})) (e e' : E)
    → (elim r [ ok _ ↦ ok tt | err x ↦ elim x [ no_mode ↦ err e | no_data ↦ err e' ] ]) ≡ ok tt
    → r ≡ ok tt
fill_or_ok (ok u) e e' h = refl
fill_or_ok (err no_mode) e e' h = ground arith
fill_or_ok (err no_data) e e' h = ground arith

replace_file-done :
    (r t : Text) (w : World) {f : File}
    → w.files t ≡ some f
    → (replace_file r t w).1 ≡ ok tt
    → (replace_file r t w).0.files r ≡ some f
unfolding replace_file
replace_file-done r t w e h = rename-target t r w e (ground arith)

module _ (sys : Platform) (path : Text) (s : State) where
  abbrev fill_and_replace : Text → Io WriteError (Unit {0})
  fill_and_replace t = do
    fill_or t 0o600 (sys.encode_state s ++ lit "\n") write_error write_error
    replace_file path t

  abbrev body : Text → Io WriteError (Unit {0})
  body t = removing t (fill_and_replace t)

  body-Kept : (r t : Text) → r ≢ t → r ≢ path → Kept r (body t)
  unfolding replace_file
  body-Kept r t n k = removing-Kept r t (fill_and_replace t) n (
      >>=-Kept r (fill_or t 0o600 (sys.encode_state s ++ lit "\n") write_error write_error)
        (λ _. replace_file path t) (fill_or-Kept r t 0o600 _ write_error write_error n)
        (λ _ _ _. rename-KeptBy r t path n k))

  body-Spared : (t : Text) → path ≢ t → Spared path (body t)
  body-Spared t n = removing-Spared path t (fill_and_replace t) n (
      >>=-Spared path (fill_or t 0o600 (sys.encode_state s ++ lit "\n") write_error write_error)
        (λ _. replace_file path t) (fill_or-Kept path t 0o600 _ write_error write_error n)
        (λ _ _ _. replace_file_failed path t n))

  -- The new content of the file.
  abbrev pub state_file : File
  state_file = record { content = sys.encode_state s ++ lit "\n"; mode = 0o600 }

  body-done :
      (t : Text) (w : World)
      → path ≢ t
      → w.files t ≡ some new_file
      → (body t w).1 ≡ ok tt
      → (body t w).0.files path ≡ some state_file
  body-done t w n e h =
      let first = fill_or t 0o600 (sys.encode_state s ++ lit "\n") write_error write_error in
      let (u, filled, same) = >>=-ok first (λ _. replace_file path t) w h in
      let stored =
        fill-filled t 0o600 (sys.encode_state s ++ lit "\n") w e
          (fill_or_ok _ write_error write_error filled) in
      remove-KeptBy path t n (fill_and_replace t w).0
      ∙ ap (λ (p : World × Result WriteError (Unit {0})). p.0.files path) same
      ∙ replace_file-done path t (first w).0 stored
          (sym (ap (λ (p : World × Result WriteError (Unit {0})). p.1) same) ∙ h)

  abbrev create : Io WriteError Text
  create = created (dir path) (lit ".tmp-") write_error

  abbrev make_dir : Io WriteError (Unit {0})
  make_dir = require (mkdir_all (dir path)) write_error

  module _ (r : Text) where
    make_dir-Kept : Kept r make_dir
    make_dir-Kept = mkdir_all-KeptBy r (dir path)

    create-Kept : IsPlain r → Kept r create
    create-Kept n = create_temp-Kept r (dir path) (lit ".tmp-") (n.no_tmp (dir path))

    plain-ne : IsPlain r → (w : World) (t : Text) → (create w).1 ≡ ok t → r ≢ t
    plain-ne n w t h e =
        let c = created-IsCreated (dir path) (lit ".tmp-") write_error w h in
        n.no_tmp (dir path) c.random (e ∙ c.named)

    -- No other file changes.
    pub write_json_atomic-Kept : IsPlain r → r ≢ path → Kept r (write_json_atomic sys path s)
    unfolding write_json_atomic
    write_json_atomic-Kept n k =
        >>=-Kept r make_dir (λ _. create >>= body) make_dir-Kept
          (λ _ _ _.
            >>=-Kept r create body (create-Kept n) (λ w t h. body-Kept r t (plain-ne n w t h) k))

  -- A file that is there and is not the one written stays as it is.
  pub write_json_atomic-Stays :
      (r : Text) (f : File) → r ≢ path → Stays r f (write_json_atomic sys path s)
  unfolding write_json_atomic
  write_json_atomic-Stays r f k =
      >>=-Stays r f make_dir (λ _. create >>= body) (λ w e. make_dir-Kept r w ∙ e)
        (λ _ _ _ _.
          >>=-Stays r f create body (create_temp-Stays r f (dir path) (lit ".tmp-"))
            (λ w t e h w' e'.
              body-Kept r t
                (exists-ne r f (created-IsCreated (dir path) (lit ".tmp-") write_error w h) e) k w'
              ∙ e'))

  pub write_json_atomic-Spared : IsPlain path → Spared path (write_json_atomic sys path s)
  unfolding write_json_atomic
  write_json_atomic-Spared n =
      >>=-Spared path make_dir (λ _. create >>= body) (make_dir-Kept path)
        (λ _ _ _.
          >>=-Spared path create body (create-Kept path n)
            (λ w t h. body-Spared t (plain-ne path n w t h)))

  -- A run of `write_json_atomic` that returns an error leaves the file as it was, where its path
  -- is no temporary file.
  pub write_json_atomic_failed :
      (w : World)
      → IsPlain path
      → {e : WriteError} → (write_json_atomic sys path s w).1 ≡ err e
      → (write_json_atomic sys path s w).0.files path ≡ w.files path
  write_json_atomic_failed w n h =
      Spares-err path w (write_json_atomic sys path s w) (write_json_atomic-Spared n w) h

  -- A run of `write_json_atomic` that returns no error leaves the encoded state and a line end in
  -- the file, in mode 0600, where its path is no temporary file.
  pub write_json_atomic-done :
      (w : World)
      → IsPlain path
      → (write_json_atomic sys path s w).1 ≡ ok tt
      → (write_json_atomic sys path s w).0.files path ≡ some state_file
  unfolding write_json_atomic
  write_json_atomic-done w n h =
      let (_, _, same) = >>=-ok make_dir (λ _. create >>= body) w h in
      let w₁ = (make_dir w).0 in
      let h₁ = sym (ap (λ (p : World × Result WriteError (Unit {0})). p.1) same) ∙ h in
      let (t, made, same₁) = >>=-ok create body w₁ h₁ in
      let c = created-IsCreated (dir path) (lit ".tmp-") write_error w₁ made in
      let h₂ = sym (ap (λ (p : World × Result WriteError (Unit {0})). p.1) same₁) ∙ h₁ in
      ap (λ (p : World × Result WriteError (Unit {0})). p.0.files path) (same ∙ same₁)
      ∙ body-done t (create w₁).0 (plain-ne path n w₁ t made) c.made h₂
