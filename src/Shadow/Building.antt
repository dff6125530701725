-- ===== src/Shadow/Building.antt =====
-- A candidate that `Run` of shadow.go has built.
use egress_router.System.{now, World, fate, read_file, lift}
use egress_router.System.Later.{later, IsLater}
use egress_router.Shadow.Moments.{based-Later, request_snapshot-Later, check_output-Later}
use egress_router.Shadow.Published.{check_snapshot-valid, onward}
use egress_router.Shadow.Snapshot.{valid_snapshot, seconds_of}
use egress_router.Common.{
  ◌+◌, ◌<◌, refl, ℕ, ◌≤◌, true, Option, some, List, ◌≡◌, sym, ap, ◌∙◌, arith, Text, text_eq, Result,
  ok, err, or_err, or_err-eq-ok, result_map, Option-cases, inl, inr,
}
use egress_router.Manager.Base.{IsBase, IsBase-earlier}
use egress_router.Common.Json.{Value, Map, get, as_array}
use egress_router.System.Frame.{Fate-cases, >>=-ok}
use egress_router.Shadow.Defs.{
  Snapshot, Options, Platform, ShadowError, invalid_options, invalid_snapshot,
}
use egress_router.Shadow.Output.{check_output, check_output-Kept}
use egress_router.Shadow.Candidate.{candidate}
use egress_router.Shadow.Run.{
  snapshot_request, request_snapshot, check_snapshot, read_base, Built, build, nodes_of,
}
use egress_router.Shadow.Unharmed.{
  check_snapshot-Kept, request_snapshot-Kept, based, checked, aged, placed,
}

module _ (sys : Platform) (opts : Options) where
  read_base-IsBase :
      (w : World) {base : Map} {values : List Value}
      → (read_base sys opts.base w).1 ≡ ok (base, values)
      → IsBase sys.decode_object opts.base w base values
  unfolding read_base read_file
  read_base-IsBase w {base} {values} h = elim (Fate-cases (fate w)) [
    | inr (s, g) ↦ absurd (ground (arith, g, h))
    | inl (s, g) ↦ elim (Option-cases (w.files opts.base)) [
      | inl e ↦ absurd (ground (arith, g, e, h))
      | inr (f, e) ↦ elim (Option-cases (sys.decode_object f.content)) [
        | inl d ↦ absurd (ground (arith, g, e, d, h))
        | inr (b, d) ↦ elim (Option-cases (as_array (get "outbounds" b))) [
          | inl a ↦ absurd (ground (arith, g, e, d, a, h))
          | inr (vs, a) ↦ record {
            file = f;
            there = e;
            decoded = ground (arith, g, e, d, a, h);
            listed = ground (arith, g, e, d, a, h);
          }
        ]
      ]
    ]
  ]

  -- What is known of a candidate that has been built.
  pub record IsBuilt (w : World) (b : Built) (w' : World) : Type 0 where
    pub call : ℕ
    pub after : w.calls ≤ call
    pub age : ℕ
    pub bounded : seconds_of opts.max_age ≡ some age
    pub asked : sys.get_snapshot call (snapshot_request opts age) ≡ some b.snapshot
    pub first : ℕ
    pub asked_before : call < first
    pub first_before : first < w'.calls
    pub checked : valid_snapshot b.snapshot opts.max_age (w.clock first) ≡ true
    pub base : Map
    pub values : List Value
    pub based : IsBase sys.decode_object opts.base w base values
    pub made : candidate sys (nodes_of b.snapshot) (base, values) ≡ ok (b.config, b.count)

  abbrev as_built : Option Snapshot → Text × ℕ → Built
  as_built s c = record { snapshot = s; config = c.0; count = c.1 }

  as_built-ok :
      (s : Option Snapshot) (r : Result ShadowError (Text × ℕ)) {b : Built}
      → result_map (as_built s) r ≡ ok b
      → (b.snapshot ≡ s) × (r ≡ ok (b.config, b.count))
  as_built-ok s (ok c) {b} h =
      let same : as_built s c ≡ b = cc h in
      (
        sym (ap (λ (x : Built). x.snapshot) same),
        ap ok (ap (λ (x : Built). (x.config, x.count)) same),
      )
  as_built-ok s (err e) h = absurd (ground (arith, h))

  asked-ok :
      (age : ℕ) (w : World) {s : Option Snapshot}
      → (request_snapshot sys opts age w).1 ≡ ok s
      → sys.get_snapshot w.calls (snapshot_request opts age) ≡ some s
  unfolding request_snapshot
  asked-ok age w h = or_err-eq-ok (sys.get_snapshot w.calls (snapshot_request opts age)) _ h

  request_calls : (age : ℕ) (w : World) → (request_snapshot sys opts age w).0.calls ≡ w.calls + 1
  unfolding request_snapshot
  request_calls age w = refl

  check_calls :
      (s : Option Snapshot) (e : ShadowError) (w : World)
      → (check_snapshot s opts.max_age e w).0.calls ≡ w.calls + 1
  unfolding check_snapshot now
  check_calls s e w = refl

  -- The calls up to the first check of the snapshot, and up to the base config.
  abbrev asked_in : ℕ → World → World
  asked_in age w = (request_snapshot sys opts age (check_output sys opts.base opts.output w).0).0

  until_check : (age : ℕ) (w : World) → IsLater w (asked_in age w)
  until_check age w =
      later (check_output-Later sys opts w)
        (request_snapshot-Later sys opts age (check_output sys opts.base opts.output w).0)

  unchanged :
      (age : ℕ) (s : Option Snapshot) (w : World)
      → (check_snapshot s opts.max_age invalid_snapshot (asked_in age w)).0.files opts.base
        ≡ w.files opts.base
  unchanged age s w =
      check_snapshot-Kept sys opts opts.base s invalid_snapshot (asked_in age w)
      ∙ request_snapshot-Kept sys opts opts.base age (check_output sys opts.base opts.output w).0
      ∙ check_output-Kept sys opts.base opts.output opts.base w

  -- The last steps.
  based-IsMade :
      (s : Option Snapshot) (w : World) {b : Built}
      → (based sys opts s w).1 ≡ ok b
      → (base : Map) × (values : List Value) × (b.snapshot ≡ s)
        × IsBase sys.decode_object opts.base w base values
        × (candidate sys (nodes_of s) (base, values) ≡ ok (b.config, b.count))
  based-IsMade s w h =
      let ((base, values), read, same) =
        >>=-ok (read_base sys opts.base)
          (λ base. lift (result_map (as_built s) (candidate sys (nodes_of s) base))) w h in
      let (snapshot, made) =
        as_built-ok s (candidate sys (nodes_of s) (base, values)) (onward same h) in
      (base, values, snapshot, read_base-IsBase w read, made)

  pub build-IsBuilt :
      (w : World) {b : Built} → (build sys opts w).1 ≡ ok b → IsBuilt w b (build sys opts w).0
  unfolding build
  build-IsBuilt w {b} h =
      let place = check_output sys opts.base opts.output in
      let (_, _, s₁) = >>=-ok place (λ _. placed sys opts) w h in
      let w₁ = (place w).0 in
      let k₁ = onward s₁ h in
      let (age, h₂, s₂) =
        >>=-ok (lift (or_err (seconds_of opts.max_age) invalid_options)) (aged sys opts) w₁ k₁ in
      let k₂ = onward s₂ k₁ in
      let (s, h₃, s₃) = >>=-ok (request_snapshot sys opts age) (checked sys opts) w₁ k₂ in
      let w₂ = (request_snapshot sys opts age w₁).0 in
      let k₃ = onward s₃ k₂ in
      let check = check_snapshot s opts.max_age invalid_snapshot in
      let (_, h₄, s₄) = >>=-ok check (λ _. based sys opts s) w₂ k₃ in
      let w₃ = (check w₂).0 in
      let (base, values, same, read, made) = based-IsMade s w₃ (onward s₄ k₃) in
      record {
        call = w₁.calls;
        after = (check_output-Later sys opts w).calls;
        age = age;
        bounded = or_err-eq-ok (seconds_of opts.max_age) invalid_options h₂;
        asked = asked-ok age w₁ h₃ ∙ ap some (sym same);
        first = w₂.calls;
        asked_before = omega (arith, request_calls age w₁);
        first_before = omega (
          arith,
          check_calls s invalid_snapshot w₂,
          ap (λ (p : World × Result ShadowError Built). p.0.calls) (s₁ ∙ s₂ ∙ s₃ ∙ s₄),
          (based-Later sys opts s w₃).calls,
        );
        checked =
            ap (λ x. valid_snapshot x opts.max_age (w.clock w₂.calls)) same
            ∙ ap (λ c. valid_snapshot s opts.max_age (c w₂.calls)) (sym (until_check age w).clock)
            ∙ check_snapshot-valid s opts.max_age invalid_snapshot w₂ h₄;
        base = base;
        values = values;
        based = IsBase-earlier w w₃ (unchanged age s w) read;
        made = ap (λ x. candidate sys (nodes_of x) (base, values)) same ∙ made;
      }
