-- ===== src/Manager/Contract.antt =====
-- What `update` promises, over what a reader of the two files sees.
use mathlib.Core.Path.{subst}
use egress_router.Common.{
  true, false, Option, none, some, [], ◌∷◌, ◌++◌, ◌≡◌, ◌≢◌, ◌⊎◌, inl, inr, refl, sym, ap, ◌∙◌,
  arith, Text, lit, All, ◌==◌, text_eq, Result, ok, err, Bool-cases, or_err-eq-ok,
}
use egress_router.System.{File, World, ReadError, not_exist, io_error, read_file}
use egress_router.Manager.Defs.{
  Subscription, State, Platform, Config, UpdateError, publish_and_rollback_failed, Report,
}
use egress_router.Manager.Files.{read_state, decoded_state, state_error}
use egress_router.Manager.Writing.{IsPlain, state_file}
use egress_router.Manager.Update.{replace_subscription, with_added, is_add, Service, update}
use egress_router.Manager.Service.{
  update_failed, update-IsUpdated, update-IsRestored, update_without_add,
}

-- The content of the output, and the subscriptions in the state file; a state file that does not
-- decode has none.
pub record View : Type 0 where
  pub published : Option Text
  pub subscriptions : Option State

abbrev pub content_of : Option File → Option Text
content_of none = none
content_of (some f) = some f.content

abbrev pub subscriptions_of : Platform → Option File → Option State
subscriptions_of sys none = some []
subscriptions_of sys (some f) = sys.decode_state f.content

abbrev pub view : Platform → Config → World → View
view sys cfg w = record {
  published = content_of (w.files cfg.output);
  subscriptions = subscriptions_of sys (w.files cfg.state);
}

-- What may become of a view by an update with a result.
pub data Promised (sys : Platform) (add : Option Subscription) (v v' : View)
    : Result UpdateError Report → Type 0 where
  updated :
      (rep : Report) (config : Text) (subs : State)
      → v.subscriptions ≡ some subs
      → v'.published ≡ some config
      → sys.accepts config ≡ true
      → v'.subscriptions ≡ some (with_added add subs)
      → Promised sys add v v' (ok rep)
  refused : (e : UpdateError) → v' ≡ v → Promised sys add v v' (err e)
  diverged :
      (e : UpdateError)
      → e ≡ publish_and_rollback_failed
      → v'.published ≡ v.published
      → Promised sys add v v' (err e)

-- What the JSON codec is relied on for: a state whose strings are text is read back, and what is read
-- is text.
pub record IsCodec (sys : Platform) (IsText : Subscription → Type 0) : Type 0 where
  pub reads :
      (s : State) → All IsText s → sys.decode_state (sys.encode_state s ++ lit "\n") ≡ some s
  pub text : (c : Text) (s : State) → sys.decode_state c ≡ some s → All IsText s

abbrev read_of : Option File → Result ReadError Text
read_of none = err not_exist
read_of (some f) = ok f.content

-- A read that succeeds is the one of the file, or of no file.
read_file-ok :
    (path : Text) (w : World)
    → ((read_file path w).1 ≡ err io_error) ⊎ ((read_file path w).1 ≡ read_of (w.files path))
unfolding read_file
read_file-ok path w = ground arith

decoded_state-ok :
    (sys : Platform) (f : Option File) {s : State}
    → decoded_state sys (read_of f) ≡ ok s
    → subscriptions_of sys f ≡ some s
decoded_state-ok sys none h = ground arith
decoded_state-ok sys (some f) h = or_err-eq-ok (sys.decode_state f.content) state_error h

read_state-view :
    (sys : Platform) (cfg : Config) (w : World) {s : State}
    → (read_state sys cfg.state w).1 ≡ ok s
    → subscriptions_of sys (w.files cfg.state) ≡ some s
unfolding read_state
read_state-view sys cfg w h = elim (read_file-ok cfg.state w) [
  | inl e ↦ absurd (ground (arith, ap (decoded_state sys) e, h))
  | inr e ↦ decoded_state-ok sys (w.files cfg.state) (sym (ap (decoded_state sys) e) ∙ h)
]

some-injective : {x y : State} → ◌≡◌ {A = Option State} (some x) (some y) → x ≡ y
some-injective e = cc e

module _ (IsText : Subscription → Type 0) (add : Subscription) (t : IsText add) where
  replace_subscription-All : (s : State) → All IsText s → All IsText (replace_subscription add s)
  unfolding replace_subscription
  replace_subscription-All [] h = (t, tt)
  replace_subscription-All (sub ∷ subs) (p, h) = elim (Bool-cases (sub.name == add.name)) [
    | inl e ↦ rw e (replace_subscription-All subs h)
    | inr e ↦ rw e (p, replace_subscription-All subs h)
  ]

module _ (sys : Platform) (cfg : Config) (IsText : Subscription → Type 0)
    (codec : IsCodec sys IsText) (out : IsPlain cfg.output) (st : IsPlain cfg.state)
    (apart : cfg.output ≢ cfg.state) (s : Service) where
  abbrev before : View
  before = view sys cfg s.world

  abbrev after : Option Subscription → View
  after add = view sys cfg (update sys cfg add s).0.world

  abbrev AddsText : Option Subscription → Type 0
  AddsText none = Unit {0}
  AddsText (some sub) = IsText sub

  -- The state that is stored is read back.
  stored-view :
      (w : World) (state : State)
      → All IsText state
      → w.files cfg.state ≡ some (state_file sys cfg.state state)
      → (view sys cfg w).subscriptions ≡ some state
  stored-view w state h e = ap (subscriptions_of sys) e ∙ codec.reads state h

  read-texts : {state : State} → (read_state sys cfg.state s.world).1 ≡ ok state → All IsText state
  read-texts {state} h = texts (s.world.files cfg.state) (read_state-view sys cfg s.world h)
    where
      texts : (f : Option File) → subscriptions_of sys f ≡ some state → All IsText state
      texts none e = subst (All IsText) (some-injective e) tt
      texts (some f) e = codec.text f.content state e

  refused-view :
      (add : Option Subscription) {e : UpdateError}
      → (update sys cfg add s).1 ≡ err e
      → (after add).published ≡ before.published
  refused-view add h = ap content_of (update_failed sys cfg add s out apart h)

  updated-subscriptions :
      (add : Option Subscription)
      → AddsText add
      → {rep : Report} → (update sys cfg add s).1 ≡ ok rep
      → (previous : State) → (read_state sys cfg.state s.world).1 ≡ ok previous
      → ((is_add add ≡ false)
          ⊎ ((update sys cfg add s).0.world.files cfg.state
              ≡ some (state_file sys cfg.state (with_added add previous))))
      → (after add).subscriptions ≡ some (with_added add previous)
  updated-subscriptions none t h previous q stored =
      ap (subscriptions_of sys) (update_without_add sys cfg s st apart)
      ∙ read_state-view sys cfg s.world q
  updated-subscriptions (some sub) t h previous q (inl e) = ground (arith, e)
  updated-subscriptions (some sub) t h previous q (inr e) =
      stored-view (update sys cfg (some sub) s).0.world (replace_subscription sub previous)
        (replace_subscription-All IsText sub t previous (read-texts q)) e

  kept-state :
      (add : Option Subscription) {e : UpdateError}
      → (update sys cfg add s).1 ≡ err e
      → ((after add).subscriptions ≡ before.subscriptions) ⊎ (e ≡ publish_and_rollback_failed)
  kept-state none h = inl (ap (subscriptions_of sys) (update_without_add sys cfg s st apart))
  kept-state (some sub) h = elim (update-IsRestored sys cfg sub s st h) [
    | inl e ↦ inl (ap (subscriptions_of sys) e)
    | inr r ↦ elim r [
      | inl (previous, q, e) ↦ inl (
          stored-view (update sys cfg (some sub) s).0.world previous (read-texts q) e
          ∙ sym (read_state-view sys cfg s.world q))
      | inr e ↦ inr e
    ]
  ]

  -- Over a view of the two files, which is the content of the output and the decoded
  -- subscriptions, where the codec reads back the states it writes, an added subscription is text,
  -- and the output and the state are two different paths that are no temporary files: an update
  -- that returns a report sets the output to a config that sing-box accepts and the subscriptions
  -- to those from before with the added one; an update that returns an error leaves the view as it
  -- was, or the error is the one for a failed rollback and the output is as it was.
  pub update-Promised :
      (add : Option Subscription)
      → AddsText add
      → Promised sys add before (after add) (update sys cfg add s).1
  update-Promised add t = step (update sys cfg add s).1 refl
    where
      view-eq :
          {v v' : View} → v.published ≡ v'.published → v.subscriptions ≡ v'.subscriptions → v ≡ v'
      view-eq p q = cc (p, q)

      step :
          (x : Result UpdateError Report)
          → (update sys cfg add s).1 ≡ x
          → Promised sys add before (after add) x
      step (ok rep) h =
          let u = update-IsUpdated sys cfg add s out st apart h in
          updated rep _ u.previous (read_state-view sys cfg s.world u.was_read)
            (ap content_of u.built.files.published) u.built.files.valid
            (updated-subscriptions add t h u.previous u.was_read u.built.files.stored)
      step (err e) h = elim (kept-state add h) [
        | inl q ↦ refused e (view-eq (refused-view add h) q)
        | inr q ↦ diverged e q (refused-view add h)
      ]
