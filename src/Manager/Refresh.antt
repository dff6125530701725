-- ===== src/Manager/Refresh.antt =====
-- What `buildState` as a whole does to the files.
use egress_router.Common.{
  Bool, true, List, [], ◌≡◌, ◌≢◌, refl, sym, ap, ◌∙◌, Text, Result, ok, String, string_eq, map,
  ◌++◌, All, All-imp,
}
use egress_router.Common.Json.{Value, Map, obj, get}
use egress_router.Manager.Base.{
  IsWebOf, IsWebOf-trans, read_base-IsWebOf, IsBase, IsBase-earlier, read_base-IsBase,
}
use egress_router.Manager.Gather.{
  on_map, with_tags, generated_tags, base_tags, check_names, Gathered, start, splice,
}
use egress_router.Manager.Tags.{outbounds_of, outbounds_of-splice, get-put_outbounds}
use mathlib.Core.Path.{subst}
use egress_router.System.{World, Io, ◌>>=◌, pure, lift}
use egress_router.System.Frame.{Kept, Spared, >>=-ok, >>=-Kept, >>=-Spared, Spared-pure}
use egress_router.System.Recover.{Recovers, Recovering, >>=-Recovering, Recovering-pure}
use egress_router.Manager.Defs.{State, Platform, Config, UpdateError, Report}
use egress_router.Manager.Feeds.{IsFed, IsFed-earlier}
use egress_router.Manager.Fed.{gather_providers-AreFed}
use egress_router.Manager.Gathered.{IsGathered}
use egress_router.Manager.Providers.{gather_providers-IsGathered}
use egress_router.Manager.Writing.{IsPlain}
use egress_router.Manager.Build.{
  gather_providers, publish, config_text, report, read_base, build_state,
}
use egress_router.Manager.Publish.{IsUnwritten, publish-Kept, publish-Spared}
use egress_router.Manager.Committed.{IsPublished, publish-IsPublished}
use egress_router.Manager.Recovery.{IsRolledBack, publish-Recovering}
use egress_router.Manager.Untouched.{gather_providers-Kept, read_base-Kept}

outcome : {p q : World × Result UpdateError Report} → p ≡ q → p.1 ≡ q.1
outcome e = ap (λ p. p.1) e

ok-injective : {x y : Report} → ◌≡◌ {A = Result UpdateError Report} (ok x) (ok y) → x ≡ y
ok-injective e = cc e

module _ (sys : Platform) (cfg : Config) (state previous : State) (persist : Bool) where
  abbrev published : Map → List Value → Gathered → Io UpdateError (Unit {0})
  published base values g =
      publish sys cfg state previous persist (config_text sys (splice base values g.outbounds))

  abbrev from_gathered : Map → List Value → Gathered → Io UpdateError Report
  from_gathered base values g = published base values g >>= λ _. pure (report g)

  abbrev from_names : Map → List Value → List Text → Io UpdateError Report
  from_names base values tags =
      gather_providers sys state 0 (start tags) >>= λ g. from_gathered base values g

  abbrev from_tags : Map → List Value → List Text → Io UpdateError Report
  from_tags base values tags = lift (check_names state []) >>= λ _. from_names base values tags

  abbrev from_base : Map × List Value → Io UpdateError Report
  from_base (base, values) = lift (base_tags values []) >>= λ tags. from_tags base values tags

  module _ (r : Text) (n : IsPlain r) (k : IsUnwritten cfg persist r) where
    -- A build touches no file but the output, the state and its temporary files.
    pub build_state-Kept : r ≢ cfg.output → Kept r (build_state sys cfg state previous persist)
    unfolding build_state
    build_state-Kept o =
        >>=-Kept r (read_base sys cfg) from_base (read_base-Kept r sys cfg) (λ _ (base, values) _.
          >>=-Kept r (lift (base_tags values [])) (from_tags base values) (λ _. refl)
            (λ _ tags _.
              >>=-Kept r (lift (check_names state [])) (λ _. from_names base values tags)
                (λ _. refl)
                (λ _ _ _.
                  >>=-Kept r (gather_providers sys state 0 (start tags)) (from_gathered base values)
                    (gather_providers-Kept r sys state 0 (start tags))
                    (λ _ g _.
                      >>=-Kept r (published base values g) (λ _. pure (report g))
                        (publish-Kept sys cfg state previous persist
                          (config_text sys (splice base values g.outbounds)) r n k o)
                        (λ _ _ _ _. refl)))))

    -- A build that fails leaves the output as it was.
    pub build_state-Spared : Spared r (build_state sys cfg state previous persist)
    unfolding build_state
    build_state-Spared =
        >>=-Spared r (read_base sys cfg) from_base (read_base-Kept r sys cfg) (λ _ (base, values) _.
          >>=-Spared r (lift (base_tags values [])) (from_tags base values) (λ _. refl)
            (λ _ tags _.
              >>=-Spared r (lift (check_names state [])) (λ _. from_names base values tags)
                (λ _. refl)
                (λ _ _ _.
                  >>=-Spared r (gather_providers sys state 0 (start tags))
                    (from_gathered base values) (gather_providers-Kept r sys state 0 (start tags))
                    (λ _ g _.
                      Spared-pure r (published base values g) (λ _. report g)
                        (publish-Spared sys cfg state previous persist
                          (config_text sys (splice base values g.outbounds)) r n k)))))

  -- The state file after a build that was to persist and failed.
  build-Recovering :
      (st : IsPlain cfg.state)
      → ((w : World) (base : Map) (values : List Value) (g : Gathered)
          → Recovers cfg.state (IsRolledBack sys cfg previous st) w (published base values g w))
      → Recovering cfg.state
          (IsRolledBack sys cfg previous st)
          (build_state sys cfg state previous persist)
  unfolding build_state
  build-Recovering st h =
      let P = IsRolledBack sys cfg previous st in
      >>=-Recovering cfg.state P (read_base sys cfg) from_base (read_base-Kept cfg.state sys cfg)
        (λ _ (base, values) _.
          >>=-Recovering cfg.state P (lift (base_tags values [])) (from_tags base values)
            (λ _. refl)
            (λ _ tags _.
              >>=-Recovering cfg.state P (lift (check_names state []))
                (λ _. from_names base values tags) (λ _. refl)
                (λ _ _ _.
                  >>=-Recovering cfg.state P (gather_providers sys state 0 (start tags))
                    (from_gathered base values)
                    (gather_providers-Kept cfg.state sys state 0 (start tags))
                    (λ _ g _.
                      Recovering-pure cfg.state P (published base values g) (λ _. report g)
                        (λ w. h w base values g)))))

  -- The config and the report of a successful build.
  pub record IsBuilt (rep : Report) (w₀ w : World) : Type 0 where
    pub base : Map
    pub values : List Value
    pub based : IsBase sys.decode_object cfg.base w₀ base values
    pub tags : List Text
    pub gathered : Gathered
    pub unique : base_tags values [] ≡ ok tags
    pub fetched_in : World
    pub web : IsWebOf w₀ fetched_in
    pub fetched : (gather_providers sys state 0 (start tags) fetched_in).1 ≡ ok gathered
    pub fed : All (IsFed sys w₀ state) gathered.outbounds
    pub sound : IsGathered sys tags gathered
    pub listed :
        outbounds_of (splice base values gathered.outbounds)
        ≡ map (on_map (with_tags (generated_tags gathered.outbounds))) values
          ++ map obj gathered.outbounds
    pub others :
        (key : String)
        → key ≢ "outbounds"
        → get key (splice base values gathered.outbounds) ≡ get key base
    pub reported : rep ≡ report gathered
    pub files :
        IsPublished sys cfg state persist
          (config_text sys (splice base values gathered.outbounds))
          w

  get-splice :
      (base : Map) (values : List Value) (outbounds : List Map) (key : String)
      → key ≢ "outbounds"
      → get key (splice base values outbounds) ≡ get key base
  unfolding splice
  get-splice base values outbounds key n = get-put_outbounds key _ base n

  pub IsBuilt-earlier :
      {rep : Report} (w w' u : World)
      → w'.files cfg.base ≡ w.files cfg.base
      → IsWebOf w w'
      → IsBuilt rep w' u
      → IsBuilt rep w u
  IsBuilt-earlier w w' u e l h = record {
    base = h.base;
    values = h.values;
    based = IsBase-earlier w w' e h.based;
    tags = h.tags;
    gathered = h.gathered;
    unique = h.unique;
    fetched_in = h.fetched_in;
    web = IsWebOf-trans w w' h.fetched_in l h.web;
    fetched = h.fetched;
    fed =
        All-imp (IsFed sys w' state) (IsFed sys w state)
          (λ item f. IsFed-earlier sys w w' state item l f) h.gathered.outbounds h.fed;
    sound = h.sound;
    listed = h.listed;
    others = h.others;
    reported = h.reported;
    files = h.files;
  }

  -- A build that succeeds.
  pub build_state-IsBuilt :
      IsPlain cfg.output
      → IsPlain cfg.state
      → cfg.output ≢ cfg.state
      → (w : World) {rep : Report} → (build_state sys cfg state previous persist w).1 ≡ ok rep
      → IsBuilt rep w (build_state sys cfg state previous persist w).0
  unfolding build_state
  build_state-IsBuilt out st apart w {rep} h =
      let ((base, values), read, s₁) = >>=-ok (read_base sys cfg) from_base w h in
      let w₁ = (read_base sys cfg w).0 in
      let (tags, unique, s₂) =
        >>=-ok (lift (base_tags values [])) (from_tags base values) w₁ (sym (outcome s₁) ∙ h) in
      let (_, _, s₃) =
        >>=-ok (lift (check_names state [])) (λ _. from_names base values tags) w₁
          (sym (outcome s₂) ∙ sym (outcome s₁) ∙ h) in
      let gather = gather_providers sys state 0 (start tags) in
      let (g, gathered, s₄) =
        >>=-ok gather (from_gathered base values) w₁
          (sym (outcome s₃) ∙ sym (outcome s₂) ∙ sym (outcome s₁) ∙ h) in
      let w₄ = (gather w₁).0 in
      let s = s₁ ∙ s₂ ∙ s₃ ∙ s₄ in
      let (_, done, s₅) =
        >>=-ok (published base values g) (λ _. pure (report g)) w₄ (sym (outcome s) ∙ h) in
      let p =
        publish-IsPublished sys cfg state previous persist
          (config_text sys (splice base values g.outbounds)) out st apart w₄ done in
      record {
        base = base;
        values = values;
        tags = tags;
        gathered = g;
        unique = unique;
        based = read_base-IsBase sys cfg w read;
        fetched_in = w₁;
        web = read_base-IsWebOf sys cfg w;
        fetched = gathered;
        listed = outbounds_of-splice base values g.outbounds;
        others = get-splice base values g.outbounds;
        fed =
            All-imp (IsFed sys w₁ state) (IsFed sys w state)
              (λ item f. IsFed-earlier sys w w₁ state item (read_base-IsWebOf sys cfg w) f)
              g.outbounds (gather_providers-AreFed sys state tags w₁ g gathered);
        sound = gather_providers-IsGathered sys state tags w₁ g gathered;
        reported = ok-injective (sym h ∙ outcome (s ∙ s₅));
        files =
            subst
              (λ (u : World).
                IsPublished sys cfg state persist (config_text sys (splice base values g.outbounds))
                  u)
              (sym (ap (λ (q : World × Result UpdateError Report). q.0) (s ∙ s₅))) p;
      }

-- A build that persists and fails: the state file is as it was, or holds the previous state, or the
-- error tells of a failed rollback.
pub build_state-Recovering :
    (sys : Platform) (cfg : Config) (state previous : State) (st : IsPlain cfg.state)
    → Recovering cfg.state
        (IsRolledBack sys cfg previous st)
        (build_state sys cfg state previous true)
build_state-Recovering sys cfg state previous st =
    build-Recovering sys cfg state previous true st (λ w base values g.
      publish-Recovering sys cfg previous st state
        (config_text sys (splice base values g.outbounds)) w)
