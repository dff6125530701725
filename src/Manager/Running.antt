-- ===== src/Manager/Running.antt =====
-- What holds in every state that `run` can reach.
use egress_router.Common.{ℕ, ◌+◌, ◌-◌, ◌<◌, Bool, none, ◌≡◌, refl, arith, ok, text_eq}
use native.Mathlib.Decide.{dec_lt}
use egress_router.Manager.Defs.{Platform, Config}
use egress_router.Manager.Update.{Service, update}
use egress_router.Manager.Handler.{DecodeRequest}
use egress_router.Manager.Loop.{
  Loop, start_refresh, Timer, off, armed, expired, begin_run, Step, request, build, send, expire,
  fail, interrupted, stopped, refreshed, ticked, Reach, here, next,
}

-- A set timer counts as one.
abbrev pub pending : Timer → ℕ
pending off = 0
pending armed = 1
pending expired = 1

abbrev pub IsSingle : Loop → Type 0
IsSingle l = l.building + l.built + l.finished + pending l.timer ≡ 1

module _ (sys : Platform) (cfg : Config) (decode : DecodeRequest) where
  Step-IsSingle : {l l' : Loop} → Step sys cfg decode l l' → IsSingle l → IsSingle l'
  Step-IsSingle (request r e) h = ground (arith, e, h)
  Step-IsSingle (build p e) h = ground (arith, e, h, p)
  Step-IsSingle (send p q e) h = ground (arith, e, h, p)
  Step-IsSingle (expire t e) h = ground (arith, e, h, t)
  Step-IsSingle (fail e) h = ground (arith, e, h)
  Step-IsSingle (interrupted a e) h = ground (arith, e, h)
  Step-IsSingle (stopped a b e) h = ground (arith, e, h)
  Step-IsSingle (refreshed a p e) h = ground (arith, e, h, p)
  Step-IsSingle (ticked a t e) h = ground (arith, e, h, t)

  -- In every state that the steps lead to from the start of the loop, the refreshes that are under
  -- way or have not been received yet and the set timer are one together.
  pub Reach-IsSingle :
      (interval : ℕ) (binds : Bool) (s : Service) {l l' : Loop}
      → begin_run interval binds s ≡ ok l
      → Reach sys cfg decode l l'
      → IsSingle l'
  unfolding begin_run
  Reach-IsSingle interval binds s h here = ground (arith, h)
  Reach-IsSingle interval binds s h (next r st) =
      Step-IsSingle st (Reach-IsSingle interval binds s h r)

  -- From a running state the refresh that is under way can come to its end, the timer can run out,
  -- and the next refresh can begin.
  pub data CanRefresh (l : Loop) : Type 0 where
    can_refresh :
        {m n : Loop}
        → Reach sys cfg decode l m
        → m.timer ≡ expired
        → m.ended ≡ none
        → n ≡ start_refresh (record m { timer = off })
        → Step sys cfg decode m n
        → CanRefresh l

  and_then : {l m : Loop} → Step sys cfg decode l m → CanRefresh m → CanRefresh l
  and_then {l} st (can_refresh r t e f u) = can_refresh (prepend st r) t e f u
    where
      prepend :
          {m n : Loop}
          → Step sys cfg decode l m
          → Reach sys cfg decode m n
          → Reach sys cfg decode l n
      prepend st here = next here st
      prepend st (next r u) = next (prepend st r) u

  from_expired : (l : Loop) → l.ended ≡ none → l.timer ≡ expired → CanRefresh l
  from_expired l e t = can_refresh here t e refl (ticked e t refl)

  from_armed : (l : Loop) → l.ended ≡ none → l.timer ≡ armed → CanRefresh l
  from_armed l e t = and_then (expire t refl) (from_expired (record l { timer = expired }) e refl)

  from_finished : (l : Loop) → l.ended ≡ none → 0 < l.finished → CanRefresh l
  from_finished l e p =
      and_then (refreshed e p refl)
        (from_armed (record l { finished = l.finished - 1; timer = armed }) e refl)

  from_built : (l : Loop) → l.ended ≡ none → 0 < l.built → l.finished ≡ 0 → CanRefresh l
  from_built l e p f =
      and_then (send p (omega (arith, f)) refl) (
        from_finished (record l { built = l.built - 1; finished = l.finished + 1 }) e (omega arith))

  from_building : (l : Loop) → l.ended ≡ none → 0 < l.building → l.finished ≡ 0 → CanRefresh l
  from_building l e p f = and_then (build p refl) (
      from_built
        (record l {
          service = (update sys cfg none l.service).0;
          building = l.building - 1;
          built = l.built + 1;
        })
        e (omega arith) f)

  single-CanRefresh : (l : Loop) → l.ended ≡ none → IsSingle l → CanRefresh l
  single-CanRefresh l e h = by_timer l.timer refl
    where
      by_timer : (t : Timer) → l.timer ≡ t → CanRefresh l
      by_timer expired q = from_expired l e q
      by_timer armed q = from_armed l e q
      by_timer off q =
          let total : l.building + l.built + l.finished ≡ 1 = ground (arith, q, h) in
          elim (dec_lt 0 l.finished) [
            | yes p ↦ from_finished l e p
            | no p ↦ elim (dec_lt 0 l.built) [
              | yes p' ↦ from_built l e p' (omega (arith, p))
              | no p' ↦ from_building l e (omega (arith, total, p, p')) (omega (arith, p))
            ]
          ]

  -- From every state that the steps lead to from the start of the loop and in which the loop has
  -- not ended, there are steps to a state in which the timer has run out and the next refresh
  -- begins.
  pub Reach-CanRefresh :
      (interval : ℕ) (binds : Bool) (s : Service) {l l' : Loop}
      → begin_run interval binds s ≡ ok l
      → Reach sys cfg decode l l'
      → l'.ended ≡ none
      → CanRefresh l'
  Reach-CanRefresh interval binds s {l} {l'} h r e =
      single-CanRefresh l' e (Reach-IsSingle interval binds s h r)
