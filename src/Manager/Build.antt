-- ===== src/Manager/Build.antt =====
-- `buildState` of subscription-manager/main.go.
use egress_router.Common.{
  ℕ, zero, suc, ◌+◌, Bool, true, false, Option, none, some, List, [], ◌∷◌, ◌++◌, Text, lit,
  if◌then◌else◌, length, Result, ok, err,
}
use egress_router.Common.Json.{Value, Map, get, as_array}
use egress_router.Feed.{decode_body}
use egress_router.Paths.{dir}
use egress_router.System.{
  mkdir_all, rename, read_file, Io, ◌>>=◌, ◌>>◌, pure, raise, lift, require, removing,
}
use egress_router.Manager.Defs.{
  State, Platform, Config, UpdateError, read_base_failed, decode_base_failed,
  base_outbounds_not_array, fetch_failed, empty_provider, no_parsed_nodes, create_output_dir_failed,
  create_candidate_failed, set_permissions_failed, write_candidate_failed, validation_failed,
  persist_state_failed, publish_and_rollback_failed, publish_failed, Report,
}
use egress_router.Manager.Fetch.{fetch}
use egress_router.Manager.Gather.{base_tags, check_names, Gathered, start, gather_nodes, splice}
use egress_router.Manager.Files.{fill_or, created, write_json_atomic}

-- One round of the loop over the providers, behind the fetch.
unfoldable pub gather_body :
    Platform → Text → ℕ → Gathered → Option Text → Result UpdateError Gathered
gather_body sys name provider g none = err (fetch_failed provider)
gather_body sys name provider g (some body) = elim (decode_body body) [
  | [] ↦ err (empty_provider provider)
  | uri ∷ uris ↦ elim (gather_nodes sys name provider (uri ∷ uris) 0 0 g) [
    | err e ↦ err e
    | ok (g', parsed) ↦ elim parsed [ zero ↦ err (no_parsed_nodes provider) | suc _ ↦ ok g' ]
  ]
]

-- The loop over the providers: `index` of them have been read.
unfoldable pub gather_providers : Platform → State → ℕ → Gathered → Io UpdateError Gathered
gather_providers sys [] index g w = (w, ok g)
gather_providers sys (sub ∷ subs) index g w =
    let (w', body) = fetch sys.parse_url sub.url w in
    elim (gather_body sys sub.name (index + 1) g body) [
      | err e ↦ (w', err e)
      | ok g' ↦ gather_providers sys subs (index + 1) g' w'
    ]

-- validateConfig: the validator may also not start or run out of its time.
unfoldable pub validate : Platform → Text → Io UpdateError (Unit {0})
validate sys path w =
    let (w', r) = read_file path w in
    (
      w',
      elim r [
        | ok config ↦ if sys.accepts config then ok tt else err validation_failed
        | err _ ↦ err validation_failed
      ],
    )

abbrev pub or_failed :
    {E : Type 0} → Result E (Unit {0}) → UpdateError → Result UpdateError (Unit {0})
or_failed (ok _) e = ok tt
or_failed (err _) e = err e

-- `writeJSONAtomic`, where its error is replaced by a fixed message
unfoldable pub write_state : Platform → Text → State → UpdateError → Io UpdateError (Unit {0})
write_state sys path state e w =
    let (w', r) = write_json_atomic sys path state w in (w', or_failed r e)

abbrev pub when_persist : Bool → Io UpdateError (Unit {0}) → Io UpdateError (Unit {0})
when_persist true m = m
when_persist false m = pure tt

-- What follows a failed rename: the previous state is written back.
unfoldable pub roll_back : Platform → Config → State → Bool → Io UpdateError (Unit {0})
roll_back sys cfg previous true = do
  write_state sys cfg.state previous publish_and_rollback_failed
  raise publish_failed
roll_back sys cfg previous false = raise publish_failed

-- The last rename, with its rollback.
unfoldable pub commit : Platform → Config → State → Bool → Text → Io UpdateError (Unit {0})
commit sys cfg previous persist temporary w =
    let (w', renamed) = rename temporary cfg.output w in
    if renamed then (w', ok tt) else roll_back sys cfg previous persist w'

-- From the candidate file to the published config.
unfoldable pub publish_candidate :
    Platform → Config → State → State → Bool → Text → Text → Io UpdateError (Unit {0})
publish_candidate sys cfg state previous persist config temporary = do
  fill_or temporary 0o640 config set_permissions_failed write_candidate_failed
  validate sys temporary
  when_persist persist (write_state sys cfg.state state persist_state_failed)
  commit sys cfg previous persist temporary

-- The effects of `buildState`, from the directory of the output on.
unfoldable pub publish : Platform → Config → State → State → Bool → Text → Io UpdateError (Unit {0})
publish sys cfg state previous persist config = do
  require (mkdir_all (dir cfg.output)) create_output_dir_failed
  temporary ← created (dir cfg.output) (lit ".config-") create_candidate_failed
  removing temporary (publish_candidate sys cfg state previous persist config temporary)

-- The config file: the object and a line end.
abbrev pub config_text : Platform → Map → Text
config_text sys config = sys.encode_object config ++ lit "\n"

abbrev pub report : Gathered → Report
report g = record { nodes = length g.outbounds; errors = g.warnings; skipped_nodes = g.skipped }

-- The base config as it is on disk, with its outbounds.
unfoldable pub read_base : Platform → Config → Io UpdateError (Map × List Value)
read_base sys cfg w =
    let (w', r) = read_file cfg.base w in
    (
      w',
      elim r [
        | err _ ↦ err read_base_failed
        | ok s ↦ elim (sys.decode_object s) [
          | none ↦ err decode_base_failed
          | some base ↦ elim (as_array (get "outbounds" base)) [
            | none ↦ err base_outbounds_not_array
            | some values ↦ ok (base, values)
          ]
        ]
      ],
    )

-- `buildState`
unfoldable pub build_state : Platform → Config → State → State → Bool → Io UpdateError Report
build_state sys cfg state previous persist = do
  (base, values) ← read_base sys cfg
  tags ← lift (base_tags values [])
  lift (check_names state [])
  g ← gather_providers sys state 0 (start tags)
  publish sys cfg state previous persist (config_text sys (splice base values g.outbounds))
  pure (report g)
