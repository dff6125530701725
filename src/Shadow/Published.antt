-- ===== src/Shadow/Published.antt =====
-- What a successful `Run` of shadow.go leaves behind.
use egress_router.Common.{
  ℕ, ◌≤◌, Bool, true, Option, some, ◌≡◌, sym, ap, ◌∙◌, arith, Text, lit, text_eq, ℤ, Result, ok,
  err, inl, inr, if◌then◌else◌,
}
use egress_router.System.{
  File, World, fate, new_file, chmod, write, close, sync, alive, now, rename, read_file, ◌>>=◌,
  require,
}
use egress_router.System.Frame.{Fate-cases, >>=-ok, close-KeptBy, sync-KeptBy, remove-KeptBy}
use egress_router.System.Temporary.{rename-target}
use egress_router.System.Later.{IsLater, later, alive-Later, create_temp-Later}
use egress_router.Paths.{dir}
use egress_router.Paths.Termination.{IsRootedWd}
use egress_router.Manager.Writing.{chmod-done, write-done, created-IsCreated}
use egress_router.Shadow.Defs.{
  Snapshot, Options, Platform, ShadowError, create_candidate_failed, write_candidate_failed,
  flush_candidate_failed, validation_failed, snapshot_expired, set_permissions_failed,
  publish_failed,
}
use egress_router.Shadow.Snapshot.{valid_snapshot}
use egress_router.Shadow.Output.{check_output, IsSafe, check_output-IsSafe}
use egress_router.Shadow.Run.{
  check_snapshot, validate, write_candidate, approve, publish_candidate, publish,
}
use egress_router.Shadow.Unharmed.{
  IsPlain, approve-Kept, create-ne, last_check, moded, approved, create, candidate_at,
}
use egress_router.Shadow.Moments.{
  validate-Later, check_snapshot-Later, write_candidate-Later, IsSafe-earlier,
}

abbrev Done : Type 0
Done = World × Result ShadowError (Unit {0})

-- The result and the rest of a run, where it is equal to another.
abbrev pub onward :
    {A : Type 0} {p q : World × Result ShadowError A} {a : A} → p ≡ q → p.1 ≡ ok a → q.1 ≡ ok a
onward {A} same h = sym (ap (λ (p : World × Result ShadowError A). p.1) same) ∙ h

pub required :
    (b : Bool) (e : ShadowError)
    → ◌≡◌ {A = Result ShadowError (Unit {0})} (if b then ok tt else err e) (ok tt)
    → b ≡ true
required b e h = ground arith

validate-accepts :
    (sys : Platform) (t : Text) (w : World) {f : File}
    → w.files t ≡ some f
    → (validate sys t w).1 ≡ ok tt
    → sys.accepts f.content ≡ true
unfolding validate read_file
validate-accepts sys t w e h = elim (Fate-cases (fate w)) [
  | inl (s, g) ↦ ground (arith, g, e)
  | inr (s, g) ↦ ground (arith, g)
]

pub check_snapshot-valid :
    (s : Option Snapshot) (max_age : ℤ) (e : ShadowError) (w : World)
    → (check_snapshot s max_age e w).1 ≡ ok tt
    → valid_snapshot s max_age (w.clock w.calls) ≡ true
unfolding check_snapshot now
check_snapshot-valid s max_age e w h = required (valid_snapshot s max_age (w.clock w.calls)) e h

pub write_candidate-done :
    (t config : Text) (w : World) {f : File}
    → w.files t ≡ some f
    → (write_candidate t config w).1 ≡ ok tt
    → (write_candidate t config w).0.files t ≡ some (record f { content = config })
unfolding write_candidate
write_candidate-done t config w {f} e h =
    let last = λ (u : Unit {0}). require (close t) flush_candidate_failed in
    let rest = λ (u : Unit {0}). require (sync t) flush_candidate_failed >>= last in
    let first = require (write t config) write_candidate_failed in
    let (_, h₁, s₁) = >>=-ok first rest w h in
    let w₁ = (first w).0 in
    let (_, h₂, s₂) = >>=-ok (require (sync t) flush_candidate_failed) last w₁ (onward s₁ h) in
    let w₂ = (sync t w₁).0 in
    ap (λ (p : Done). p.0.files t) (s₁ ∙ s₂)
    ∙ close-KeptBy t t w₂
    ∙ sync-KeptBy t t w₁
    ∙ write-done t config w e (required (write t config w).1 write_candidate_failed h₁)

-- What the checks before the publication have found.
pub record IsApproved (sys : Platform) (opts : Options) (s : Option Snapshot) (w : World)
    (config : Text) : Type 0 where
  pub accepted : sys.accepts config ≡ true
  pub call : ℕ
  pub after : w.calls ≤ call
  pub valid : valid_snapshot s opts.max_age (w.clock call) ≡ true
  pub safe : IsSafe w sys.getwd opts.base opts.output

pub IsApproved-earlier :
    {sys : Platform} {opts : Options} {s : Option Snapshot} {w w' : World} {config : Text}
    → IsLater w w'
    → IsApproved sys opts s w' config
    → IsApproved sys opts s w config
IsApproved-earlier {sys} {opts} {s} l h = record {
  accepted = h.accepted;
  call = h.call;
  after = omega (arith, l.calls, h.after);
  valid = ap (λ c. valid_snapshot s opts.max_age (c h.call)) (sym l.clock) ∙ h.valid;
  safe = IsSafe-earlier sys.getwd opts.base opts.output l h.safe;
}

module _ (sys : Platform) (opts : Options) (s : Option Snapshot) (wd : IsRootedWd sys.getwd) where
  approve-IsApproved :
      (t : Text) (w : World) {f : File}
      → w.files t ≡ some f
      → (approve sys opts s t w).1 ≡ ok tt
      → IsApproved sys opts s w f.content
  unfolding approve
  approve-IsApproved t w e h =
      let checks = λ (u : Unit {0}). last_check sys opts s in
      let again = λ (u : Unit {0}). require alive snapshot_expired >>= checks in
      let rest = λ (u : Unit {0}). require alive validation_failed >>= again in
      let (_, h₁, s₁) = >>=-ok (validate sys t) rest w h in
      let w₁ = (validate sys t w).0 in
      let k₁ = onward s₁ h in
      let (_, h₂, s₂) = >>=-ok (require alive validation_failed) again w₁ k₁ in
      let w₂ = (alive w₁).0 in
      let k₂ = onward s₂ k₁ in
      let (_, h₃, s₃) = >>=-ok (require alive snapshot_expired) checks w₂ k₂ in
      let w₃ = (alive w₂).0 in
      let k₃ = onward s₃ k₂ in
      let (_, h₄, s₄) =
        >>=-ok (check_snapshot s opts.max_age snapshot_expired)
          (λ _. check_output sys opts.base opts.output) w₃ k₃ in
      let w₄ = (check_snapshot s opts.max_age snapshot_expired w₃).0 in
      let l = later (validate-Later sys opts t w) (later (alive-Later w₁) (alive-Later w₂)) in
      let l' = later l (check_snapshot-Later sys opts s snapshot_expired w₃) in
      record {
        accepted = validate-accepts sys t w e h₁;
        call = w₃.calls;
        after = l.calls;
        valid =
            ap (λ c. valid_snapshot s opts.max_age (c w₃.calls)) (sym l.clock)
            ∙ check_snapshot-valid s opts.max_age snapshot_expired w₃ h₄;
        safe =
            IsSafe-earlier sys.getwd opts.base opts.output l'
              (check_output-IsSafe sys opts.base opts.output w₄ wd (onward s₄ k₃));
      }

  -- The candidate of a given text.
  abbrev pub output_file : Text → File
  output_file config = record { content = config; mode = 0o640 }

  publish_candidate-done :
      (t config : Text) (w : World)
      → w.files t ≡ some new_file
      → (publish_candidate sys opts s config t w).1 ≡ ok tt
      → IsApproved sys opts s w config
        × ((publish_candidate sys opts s config t w).0.files opts.output
            ≡ some (output_file config))
  unfolding publish_candidate
  publish_candidate-done t config w e h =
      let finish = λ (u : Unit {0}). moded sys opts t in
      let (_, h₁, s₁) = >>=-ok (write_candidate t config) (λ _. approved sys opts s t) w h in
      let w₁ = (write_candidate t config w).0 in
      let e₁ = write_candidate-done t config w e h₁ in
      let k₁ = onward s₁ h in
      let (_, h₂, s₂) = >>=-ok (approve sys opts s t) finish w₁ k₁ in
      let w₂ = (approve sys opts s t w₁).0 in
      let e₂ = approve-Kept sys opts t s t w₁ ∙ e₁ in
      let k₂ = onward s₂ k₁ in
      let (_, h₃, s₃) =
        >>=-ok (require (chmod t 0o640) set_permissions_failed)
          (λ _. require (rename t opts.output) publish_failed) w₂ k₂ in
      let w₃ = (chmod t 0o640 w₂).0 in
      let e₃ = chmod-done t 0o640 w₂ e₂ (required (chmod t 0o640 w₂).1 set_permissions_failed h₃) in
      let renamed = required (rename t opts.output w₃).1 publish_failed (onward s₃ k₂) in
      (
        IsApproved-earlier (write_candidate-Later sys opts t config w)
            (approve-IsApproved t w₁ e₁ h₂),
        ap (λ (p : Done). p.0.files opts.output) (s₁ ∙ s₂ ∙ s₃)
            ∙ rename-target t opts.output w₃ e₃ renamed,
      )

  -- A publication that succeeds.
  pub publish-done :
      (config : Text) (w : World)
      → IsPlain opts.output
      → (publish sys opts s config w).1 ≡ ok tt
      → IsApproved sys opts s w config
        × ((publish sys opts s config w).0.files opts.output ≡ some (output_file config))
  unfolding publish
  publish-done config w plain h =
      let (t, made, s₁) = >>=-ok (create sys opts) (candidate_at sys opts s config) w h in
      let w₁ = (create sys opts w).0 in
      let c =
        created-IsCreated (dir opts.output) (lit ".catalog-shadow-") create_candidate_failed w
          made in
      let (approved, placed) = publish_candidate-done t config w₁ c.made (onward s₁ h) in
      let w₂ = (publish_candidate sys opts s config t w₁).0 in
      let ne = create-ne sys opts opts.output s config plain w t made in
      (
        IsApproved-earlier (create_temp-Later (dir opts.output) (lit ".catalog-shadow-") w)
            approved,
        ap (λ (p : Done). p.0.files opts.output) s₁
            ∙ remove-KeptBy opts.output t ne (close t w₂).0
            ∙ close-KeptBy opts.output t w₂
            ∙ placed,
      )
