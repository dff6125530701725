-- ===== src/Manager/Committed.antt =====
-- What `buildState` leaves in the output and in the state file, by how it ends.
use egress_router.Common.{
  Bool, true, false, some, ◌≡◌, ◌≢◌, ◌⊎◌, inl, inr, refl, sym, ap, ◌∙◌, arith, Text, lit, text_eq,
  Result, ok, err, Bool-cases,
}
use egress_router.Paths.{dir}
use egress_router.System.{
  File, World, fate, mkdir_all, rename, new_file, Io, ◌>>=◌, raise, require, removing, read_file,
}
use egress_router.System.Frame.{>>=-ok, Fate-cases, remove-KeptBy, rename-KeptBy}
use egress_router.System.Temporary.{rename-target, Stays}
use egress_router.Manager.Defs.{
  State, Platform, Config, UpdateError, create_output_dir_failed, create_candidate_failed,
  set_permissions_failed, write_candidate_failed, persist_state_failed, publish_and_rollback_failed,
  publish_failed,
}
use egress_router.Manager.Files.{fill_or, created}
use egress_router.Manager.Writing.{
  IsPlain, fill_or_ok, fill-filled, created-IsCreated, write_json_atomic-Stays,
  write_json_atomic-done, state_file,
}
use egress_router.Manager.Build.{
  validate, or_failed, write_state, when_persist, roll_back, commit, publish_candidate, publish,
}
use egress_router.Manager.Publish.{create-ne, validate-Kept}

-- A validated file has a content that sing-box accepts.
validate-accepts :
    (sys : Platform) (t : Text) (w : World) {f : File}
    → w.files t ≡ some f
    → (validate sys t w).1 ≡ ok tt
    → sys.accepts f.content ≡ true
unfolding validate read_file
validate-accepts sys t w e h = elim (Fate-cases (fate w)) [
  | inl (s, g) ↦ ground (arith, g, e)
  | inr (s, g) ↦ ground (arith, g)
]

-- The result and one file of two equal runs.
result : {A : Type 0} {p q : World × Result UpdateError A} → p ≡ q → p.1 ≡ q.1
result e = ap (λ p. p.1) e

file :
    {A : Type 0} {p q : World × Result UpdateError A} (r : Text) → p ≡ q → p.0.files r ≡ q.0.files r
file r e = ap (λ p. p.0.files r) e

roll_back-ne-ok :
    (sys : Platform) (cfg : Config) (previous : State) (persist : Bool) (w : World)
    → (roll_back sys cfg previous persist w).1 ≢ ok tt
unfolding roll_back
roll_back-ne-ok sys cfg previous true w h =
    let (_, _, same) =
      >>=-ok (write_state sys cfg.state previous publish_and_rollback_failed)
        (λ _. raise publish_failed) w h in
    cc (result same, h)
roll_back-ne-ok sys cfg previous false w h = ground arith

module _ (sys : Platform) (cfg : Config) (previous : State) (persist : Bool) (t : Text)
    (w : World) where
  commit-ok :
      (commit sys cfg previous persist t w).1 ≡ ok tt
      → ((rename t cfg.output w).1 ≡ true)
        × ((commit sys cfg previous persist t w).0 ≡ (rename t cfg.output w).0)
  unfolding commit
  commit-ok h = elim (Bool-cases (rename t cfg.output w).1) [
    | inl e ↦ (e, rw e)
    | inr e ↦
        absurd (roll_back-ne-ok sys cfg previous persist (rename t cfg.output w).0 (rw e at h))
  ]

pub or_failed-ok :
    {E : Type 0} (r : Result E (Unit {0})) (e : UpdateError) → or_failed r e ≡ ok tt → r ≡ ok tt
or_failed-ok (ok u) e h = refl
or_failed-ok (err x) e h = ground arith

pub write_state-done :
    (sys : Platform) (path : Text) (s : State) (e : UpdateError) (w : World)
    → IsPlain path
    → (write_state sys path s e w).1 ≡ ok tt
    → (write_state sys path s e w).0.files path ≡ some (state_file sys path s)
unfolding write_state
write_state-done sys path s e w n h = write_json_atomic-done sys path s w n (or_failed-ok _ e h)

write_state-Stays :
    (sys : Platform) (path : Text) (s : State) (e : UpdateError) (r : Text) (f : File)
    → r ≢ path
    → Stays r f (write_state sys path s e)
unfolding write_state
write_state-Stays sys path s e r f k w h = write_json_atomic-Stays sys path s r f k w h

when_persist-Stays :
    (r : Text) (f : File) (b : Bool) (m : Io UpdateError (Unit {0}))
    → Stays r f m
    → Stays r f (when_persist b m)
when_persist-Stays r f true m h w e = h w e
when_persist-Stays r f false m h w e = e

-- The published config.
abbrev pub output_file : Text → File
output_file config = record { content = config; mode = 0o640 }

-- The files behind a successful run.
pub record IsPublished (sys : Platform) (cfg : Config) (state : State) (persist : Bool)
    (config : Text) (w : World) : Type 0 where
  pub published : w.files cfg.output ≡ some (output_file config)
  pub valid : sys.accepts config ≡ true
  pub stored : (persist ≡ false) ⊎ (w.files cfg.state ≡ some (state_file sys cfg.state state))

module _ (sys : Platform) (cfg : Config) (state previous : State) (persist : Bool) (config : Text)
    (out : IsPlain cfg.output) (st : IsPlain cfg.state) (apart : cfg.output ≢ cfg.state) where
  abbrev filled : Text → Io UpdateError (Unit {0})
  filled t = fill_or t 0o640 config set_permissions_failed write_candidate_failed

  abbrev persisted : Io UpdateError (Unit {0})
  persisted = when_persist persist (write_state sys cfg.state state persist_state_failed)

  abbrev from_commit : Text → Io UpdateError (Unit {0})
  from_commit t = commit sys cfg previous persist t

  abbrev from_persist : Text → Io UpdateError (Unit {0})
  from_persist t = persisted >>= λ _. from_commit t

  abbrev from_validate : Text → Io UpdateError (Unit {0})
  from_validate t = validate sys t >>= λ _. from_persist t

  abbrev candidate : Text → Io UpdateError (Unit {0})
  candidate t = removing t (publish_candidate sys cfg state previous persist config t)

  persisted-done :
      (w : World)
      → (persisted w).1 ≡ ok tt
      → (persist ≡ false)
        ⊎ ((persisted w).0.files cfg.state ≡ some (state_file sys cfg.state state))
  persisted-done w h = elim (Bool-cases persist) [
    | inr e ↦ inl e
    | inl e ↦
        inr (rw e (write_state-done sys cfg.state state persist_state_failed w st (rw e at h)))
  ]

  persisted-Stays : (t : Text) → t ≢ cfg.state → Stays t (output_file config) persisted
  persisted-Stays t k =
      when_persist-Stays t (output_file config) persist
        (write_state sys cfg.state state persist_state_failed)
        (write_state-Stays sys cfg.state state persist_state_failed t (output_file config) k)

  -- The candidate becomes the output.
  publish_candidate-done :
      (t : Text) (w : World)
      → t ≢ cfg.state
      → w.files t ≡ some new_file
      → cfg.state ≢ t
      → (publish_candidate sys cfg state previous persist config t w).1 ≡ ok tt
      → IsPublished sys cfg state persist config
          (publish_candidate sys cfg state previous persist config t w).0
  unfolding publish_candidate
  publish_candidate-done t w k e k' h =
      let (_, h₁, s₁) = >>=-ok (filled t) (λ _. from_validate t) w h in
      let w₁ = (filled t w).0 in
      let e₁ =
        fill-filled t 0o640 config w e
          (fill_or_ok _ set_permissions_failed write_candidate_failed h₁) in
      let (_, h₂, s₂) = >>=-ok (validate sys t) (λ _. from_persist t) w₁ (sym (result s₁) ∙ h) in
      let w₂ = (validate sys t w₁).0 in
      let e₂ = validate-Kept sys t t w₁ ∙ e₁ in
      let (_, h₃, s₃) =
        >>=-ok persisted (λ _. from_commit t) w₂ (sym (result s₂) ∙ sym (result s₁) ∙ h) in
      let w₃ = (persisted w₂).0 in
      let e₃ = persisted-Stays t k w₂ e₂ in
      let last = sym (result s₃) ∙ (sym (result s₂) ∙ sym (result s₁) ∙ h) in
      let (renamed, s₄) = commit-ok sys cfg previous persist t w₃ last in
      record {
        published =
            file cfg.output (s₁ ∙ s₂ ∙ s₃)
            ∙ ap (λ (u : World). u.files cfg.output) s₄
            ∙ rename-target t cfg.output w₃ e₃ renamed;
        valid = validate-accepts sys t w₁ e₁ h₂;
        stored = elim (persisted-done w₂ h₃) [
          | inl no_persist ↦ inl no_persist
          | inr e₄ ↦ inr (
              file cfg.state (s₁ ∙ s₂ ∙ s₃)
              ∙ ap (λ (u : World). u.files cfg.state) s₄
              ∙ rename-KeptBy cfg.state t cfg.output k' (λ q. apart (sym q)) w₃
              ∙ e₄)
        ];
      }

  -- A run that succeeds: the output is the config, which sing-box accepts, and the state that was to
  -- be stored is stored.
  pub publish-IsPublished :
      (w : World)
      → (publish sys cfg state previous persist config w).1 ≡ ok tt
      → IsPublished sys cfg state persist config (publish sys cfg state previous persist config w).0
  unfolding publish
  publish-IsPublished w h =
      let make_dir = require (mkdir_all (dir cfg.output)) create_output_dir_failed in
      let create = created (dir cfg.output) (lit ".config-") create_candidate_failed in
      let (_, _, s₁) = >>=-ok make_dir (λ _. create >>= candidate) w h in
      let w₁ = (make_dir w).0 in
      let (t, made, s₂) = >>=-ok create candidate w₁ (sym (result s₁) ∙ h) in
      let c = created-IsCreated (dir cfg.output) (lit ".config-") create_candidate_failed w₁ made in
      let ne = λ (r : Text) (n : IsPlain r).
        create-ne sys cfg state previous persist config r n w₁ t made in
      let p =
        publish_candidate-done t (create w₁).0 (λ q. ne cfg.state st (sym q)) c.made
          (ne cfg.state st) (sym (result s₂) ∙ sym (result s₁) ∙ h) in
      let w₂ = (publish_candidate sys cfg state previous persist config t (create w₁).0).0 in
      record {
        published =
            file cfg.output (s₁ ∙ s₂)
            ∙ remove-KeptBy cfg.output t (ne cfg.output out) w₂
            ∙ p.published;
        valid = p.valid;
        stored = elim p.stored [
          | inl no_persist ↦ inl no_persist
          | inr e ↦
              inr (file cfg.state (s₁ ∙ s₂) ∙ remove-KeptBy cfg.state t (ne cfg.state st) w₂ ∙ e)
        ];
      }
