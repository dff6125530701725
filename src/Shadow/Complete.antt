-- ===== src/Shadow/Complete.antt =====
-- A successful `Run` of shadow.go, from the snapshot to the published file.
use egress_router.Manager.Base.{IsBase}
use egress_router.Shadow.Building.{build-IsBuilt}
use mathlib.Core.Path.{subst}
use egress_router.Shadow.Snapshot.{
  seconds_of, valid_snapshot, IsValidNode, IsValid, valid_snapshot-IsValid,
}
use egress_router.Common.{
  ◌<◌, ℕ, ◌≤◌, true, some, List, ◌≡◌, sym, ap, ◌∙◌, arith, Text, take, text_eq, Result, ok, All-imp,
}
use egress_router.Common.Json.{Value, Map}
use egress_router.System.{World, pure}
use egress_router.System.Frame.{>>=-ok}
use egress_router.Paths.Termination.{IsRootedWd}
use egress_router.Shadow.Defs.{Snapshot, Options, Report, Platform, ShadowError, Node}
use egress_router.Shadow.Output.{IsSafe}
use egress_router.Shadow.Candidate.{candidate}
use egress_router.Shadow.Tags.{IsCandidate, candidate-IsCandidate}
use egress_router.Shadow.Run.{snapshot_request, build, report, run, nodes_of, id_of, hex, publish}
use egress_router.Shadow.Unharmed.{IsPlain, placed, published}
use egress_router.Shadow.Moments.{build-Later}
use egress_router.Shadow.Published.{IsApproved-earlier, onward, publish-done}

ok-eq : {a b : Report} → ◌≡◌ {A = Result ShadowError Report} (ok a) (ok b) → a ≡ b
ok-eq h = cc h

some-eq : {A : Type 0} {a b : A} → some a ≡ some b → a ≡ b
some-eq h = cc h

module _ (sys : Platform) (opts : Options) where
  -- What a successful run has done: the catalog was asked at a call from the start on, and the snapshot
  -- was valid at another.
  pub record IsComplete (w w' : World) (r : Report) : Type 0 where
    pub snapshot : Snapshot
    pub asked_at : ℕ
    pub asked_after : w.calls ≤ asked_at
    pub age : ℕ
    pub bounded : seconds_of opts.max_age ≡ some age
    pub asked : sys.get_snapshot asked_at (snapshot_request opts age) ≡ some (some snapshot)
    pub first_at : ℕ
    pub asked_before : asked_at < first_at
    pub valid_first : IsValid (w.clock first_at) age snapshot
    pub checked_at : ℕ
    pub first_before : first_at < checked_at
    pub valid : IsValid (w.clock checked_at) age snapshot
    pub base : Map
    pub values : List Value
    pub based : IsBase sys.decode_object opts.base w base values
    pub config : Text
    pub candidate : IsCandidate sys snapshot.nodes base values config r.count
    pub accepted : sys.accepts config ≡ true
    pub safe : IsSafe w sys.getwd opts.base opts.output
    pub published : w'.files opts.output ≡ some (record { content = config; mode = 0o640 })
    pub version : r.version ≡ hex (take 8 (sys.sha256 snapshot.id))

  -- A `Run` that returns a report has asked the catalog for a snapshot, which was valid for the
  -- age of the options at two later calls, one before the candidate was built and one after it;
  -- the output holds, in mode 0640, the candidate (`IsCandidate`) of this snapshot and the base
  -- config as it was at the start; sing-box accepts it; the path of the output is safe (`IsSafe`);
  -- and the report has the number of the nodes and the digest of the snapshot's name. os.Getwd
  -- gives a rooted path, and the output is the path of no temporary file.
  pub run-IsComplete :
      (w : World) {r : Report}
      → IsRootedWd sys.getwd
      → IsPlain opts.output
      → (run sys opts w).1 ≡ ok r
      → IsComplete w (run sys opts w).0 r
  unfolding run
  run-IsComplete w {r} wd plain h =
      let (b, h₁, s₁) = >>=-ok (build sys opts) (published sys opts) w h in
      let w₁ = (build sys opts w).0 in
      let k₁ = onward s₁ h in
      let publication = publish sys opts b.snapshot b.config in
      let (_, h₂, s₂) = >>=-ok publication (λ _. pure (report sys b)) w₁ k₁ in
      let built = build-IsBuilt sys opts w h₁ in
      let (approved, placed) = publish-done sys opts b.snapshot wd b.config w₁ plain h₂ in
      let a = IsApproved-earlier (build-Later sys opts w) approved in
      let (s, age, here, bounded, valid) =
        (valid_snapshot-IsValid b.snapshot opts.max_age (w.clock approved.call)).0 (
          ap (λ c. valid_snapshot b.snapshot opts.max_age (c approved.call))
            (sym (build-Later sys opts w).clock)
          ∙ approved.valid) in
      let (s', age', here', bounded', valid') =
        (valid_snapshot-IsValid b.snapshot opts.max_age (w.clock built.first)).0 built.checked in
      let first =
        subst (λ n. IsValid (w.clock built.first) n s) (some-eq (sym bounded' ∙ bounded))
          (subst (IsValid (w.clock built.first) age') (some-eq (sym here' ∙ here)) valid') in
      let same : report sys b ≡ r = ok-eq (onward s₂ k₁) in
      let made =
        ap (λ x. candidate sys (nodes_of x) (built.base, built.values)) (sym here) ∙ built.made in
      record {
        snapshot = s;
        asked_at = built.call;
        asked_after = built.after;
        age = age;
        bounded = bounded;
        asked =
            ap (λ n. sys.get_snapshot built.call (snapshot_request opts n))
              (some-eq (sym bounded ∙ built.bounded))
            ∙ built.asked
            ∙ ap some here;
        first_at = built.first;
        asked_before = built.asked_before;
        valid_first = first;
        checked_at = approved.call;
        first_before = omega (arith, built.first_before, approved.after);
        valid = valid;
        base = built.base;
        values = built.values;
        based = built.based;
        config = b.config;
        candidate =
            candidate-IsCandidate sys s.nodes built.base built.values valid.some_nodes
              (All-imp (IsValidNode (w.clock approved.call) age)
                (λ o. (node : Node) × (o ≡ some node)) (λ o v. (v.node, v.there)) s.nodes
                valid.valid_nodes)
              (made ∙ ap (λ (x : Report). ok (b.config, x.count)) same);
        accepted = a.accepted;
        safe = a.safe;
        published =
            ap (λ (p : World × Result ShadowError Report). p.0.files opts.output) (s₁ ∙ s₂)
            ∙ placed;
        version =
            sym (ap (λ (x : Report). x.version) same)
            ∙ ap (λ x. hex (take 8 (sys.sha256 (id_of x)))) here;
      }
