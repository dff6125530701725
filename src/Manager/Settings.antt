-- ===== src/Manager/Settings.antt =====
-- `env` and `newManager` of subscription-manager/main.go.
use egress_router.Common.{
  ℕ, ◌*◌, ◌/◌, ◌≤◌, Option, none, some, [], ◌≡◌, refl, arith, Text, lit, ◌==◌, text_eq,
  if◌then◌else◌, atoi, within, within_bounds, Result, ok, err,
}
use egress_router.Manager.Defs.{Config}

-- os.Getenv: an unset variable is empty.
abbrev pub Environment : Type 0
Environment = Text → Text

-- `env`
unfoldable pub env : Environment → Text → Text → Text
env getenv name fallback = let value = getenv name in if value == [] then fallback else value

pub data SettingsError : Type 0 where
  invalid_refresh_interval invalid_port : SettingsError

-- The nanoseconds of a second, and the largest int64.
abbrev pub second : ℕ
second = 1000000000

abbrev pub max_int64 : ℕ
max_int64 = 9223372036854775807

-- A Manager as `newManager` makes it; the interval is a time.Duration in nanoseconds.
pub record Settings : Type 0 where
  pub config : Config
  pub interval : ℕ
  pub port : ℕ

-- The settings of a valid interval in seconds and a valid port.
unfoldable pub settings_of : Environment → Option ℕ → Option ℕ → Result SettingsError Settings
settings_of getenv none port = err invalid_refresh_interval
settings_of getenv (some interval) none = err invalid_port
settings_of getenv (some interval) (some port) = ok (record {
  config = record {
    base = env getenv (lit "BASE_CONFIG") (lit "/data/base-config.json");
    output = env getenv (lit "OUTPUT_CONFIG") (lit "/data/runtime/config.json");
    state = env getenv (lit "STATE_FILE") (lit "/data/state/subscriptions.json");
  };
  interval = interval * second;
  port = port;
})

-- `newManager`
unfoldable pub new_manager : Environment → Result SettingsError Settings
new_manager getenv =
    settings_of getenv
      (within 1 (max_int64 / second) (atoi (env getenv (lit "REFRESH_INTERVAL") (lit "3600"))))
      (within 1 65535 (atoi (env getenv (lit "PORT") (lit "19091"))))

settings_of-ok :
    (getenv : Environment) (interval port : Option ℕ) {s : Settings}
    → settings_of getenv interval port ≡ ok s
    → (n : ℕ) × (interval ≡ some n) × (s.interval ≡ n * second) × (port ≡ some s.port)
unfolding settings_of
settings_of-ok getenv none port h = ground arith
settings_of-ok getenv (some n) none h = ground arith
settings_of-ok getenv (some n) (some p) h = (n, refl, ground arith, ground arith)

largest_interval : max_int64 / second ≡ 9223372036
largest_interval = refl

-- The settings that `new_manager` accepts have an interval of at least a second that fits an int64
-- of nanoseconds, and a port from 1 to 65535.
pub new_manager_bounds :
    (getenv : Environment) {s : Settings}
    → new_manager getenv ≡ ok s
    → (second ≤ s.interval) × (s.interval ≤ max_int64) × (1 ≤ s.port) × (s.port ≤ 65535)
unfolding new_manager
new_manager_bounds getenv h =
    let interval = atoi (env getenv (lit "REFRESH_INTERVAL") (lit "3600")) in
    let port = atoi (env getenv (lit "PORT") (lit "19091")) in
    let (n, e, f, p) =
      settings_of-ok getenv (within 1 (max_int64 / second) interval) (within 1 65535 port) h in
    let (low, high) = within_bounds 1 (max_int64 / second) interval e in
    let (first, last) = within_bounds 1 65535 port p in
    (omega (arith, f, low), omega (arith, f, high), first, last)
