-- ===== src/Manager/Loop.antt =====
-- `run` and `main` of subscription-manager/main.go: the goroutines, the channels and the timer as a
-- state, and what may happen next as a step relation.
use egress_router.Common.{
  ℕ, ◌+◌, ◌-◌, ◌<◌, Bool, true, false, Option, none, some, ◌≡◌, Text, lit, leb, if◌then◌else◌,
  Result, ok, err,
}
use egress_router.Manager.Defs.{Platform, Config}
use egress_router.Manager.Update.{Service, update}
use egress_router.Manager.Settings.{Environment, Settings, env, SettingsError, new_manager}
use egress_router.Manager.Handler.{DecodeRequest, Request, handler}

pub data LoopError : Type 0 where
  interval_not_positive bind_failed server_stopped : LoopError

-- Stopped or not set; running; or with a value in its channel.
pub data Timer : Type 0 where
  off armed expired : Timer

-- `building` goroutines are in `m.build`, `built` have left it and send on `refreshDone`, which holds
-- `finished` values; `server_failed` says that `serverErrors` holds a value; `ended` is what `run`
-- has returned, where it has: `none` is no error.
pub record Loop : Type 0 where
  pub service : Service
  pub building : ℕ
  pub built : ℕ
  pub finished : ℕ
  pub timer : Timer
  pub server_failed : Bool
  pub ended : Option (Option LoopError)

-- The capacity of `refreshDone`
abbrev pub done_capacity : ℕ
done_capacity = 1

-- `start`
abbrev pub start_refresh : Loop → Loop
start_refresh l = record l { building = l.building + 1 }

-- The state in which `run` reaches its loop.
abbrev pub started : Service → Loop
started s = start_refresh (record {
  service = s;
  building = 0;
  built = 0;
  finished = 0;
  timer = off;
  server_failed = false;
  ended = none;
})

-- `run`, up to its loop; the flag says whether the listener binds.
unfoldable pub begin_run : ℕ → Bool → Service → Result LoopError Loop
begin_run interval binds s =
    if leb interval 0
    then err interval_not_positive
    else if binds
    then ok (started s)
    else err bind_failed

-- One step of the program: a request, which may be one that is in flight when the loop has ended, a
-- goroutine, the runtime, or one round of the loop's `select`.
pub data Step (sys : Platform) (cfg : Config) (decode : DecodeRequest) (l l' : Loop) : Type 0 where
  request :
      (r : Request)
      → l' ≡ record l { service = (handler sys cfg decode r l.service).0 }
      → Step sys cfg decode l l'
  build :
      0 < l.building
      → l' ≡ record l {
        service = (update sys cfg none l.service).0;
        building = l.building - 1;
        built = l.built + 1;
      }
      → Step sys cfg decode l l'
  send :
      0 < l.built
      → l.finished < done_capacity
      → l' ≡ record l { built = l.built - 1; finished = l.finished + 1 }
      → Step sys cfg decode l l'
  expire : l.timer ≡ armed → l' ≡ record l { timer = expired } → Step sys cfg decode l l'
  fail : l' ≡ record l { server_failed = true } → Step sys cfg decode l l'
  interrupted : l.ended ≡ none → l' ≡ record l { ended = some none } → Step sys cfg decode l l'
  stopped :
      l.ended ≡ none
      → l.server_failed ≡ true
      → l' ≡ record l { ended = some (some server_stopped) }
      → Step sys cfg decode l l'
  refreshed :
      l.ended ≡ none
      → 0 < l.finished
      → l' ≡ record l { finished = l.finished - 1; timer = armed }
      → Step sys cfg decode l l'
  ticked :
      l.ended ≡ none
      → l.timer ≡ expired
      → l' ≡ start_refresh (record l { timer = off })
      → Step sys cfg decode l l'

pub data Reach (sys : Platform) (cfg : Config) (decode : DecodeRequest) (l : Loop)
    : Loop → Type 0 where
  here : Reach sys cfg decode l l
  next :
      {m n : Loop} → Reach sys cfg decode l m → Step sys cfg decode m n → Reach sys cfg decode l n

pub data MainError : Type 0 where
  invalid_log_level : MainError
  invalid_settings : SettingsError → MainError
  startup_failed : LoopError → MainError

abbrev pub or_settings : {A : Type 0} → Result SettingsError A → Result MainError A
or_settings (ok a) = ok a
or_settings (err e) = err (invalid_settings e)

abbrev pub or_startup : {A : Type 0} → Result LoopError A → Result MainError A
or_startup (ok a) = ok a
or_startup (err e) = err (startup_failed e)

-- `main`, up to the loop: `is_level` is whether slog reads the level, `binds` whether the listener
-- binds to the port, and `service` the health of a new manager with the files.
unfoldable pub begin_main :
    Environment → (Text → Bool) → (ℕ → Bool) → Service → Result MainError (Settings × Loop)
begin_main getenv is_level binds service =
    if is_level (env getenv (lit "LOG_LEVEL") (lit "INFO"))
    then elim (or_settings (new_manager getenv)) [
      | err e ↦ err e
      | ok s ↦ elim (or_startup (begin_run s.interval (binds s.port) service)) [
        | err e ↦ err e
        | ok l ↦ ok (s, l)
      ]
    ]
    else err invalid_log_level
