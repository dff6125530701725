-- ===== src/Shadow/Executed.antt =====
-- What the command catalog-shadow does, when it fails and when it succeeds.
use egress_router.Common.{
  ◌&&◌, ◌||◌, not, List, [], ◌≡◌, refl, Text, lit, ◌==◌, nat_eq, text_eq, Result, ok, err, reject,
  Bool-cases, inl, inr,
}
use egress_router.System.{World, Io, ◌>>=◌, lift}
use egress_router.System.Frame.{Kept, Spared, Spares-err, >>=-Spared, read_file-Kept}
use egress_router.Manager.Settings.{Environment}
use egress_router.Shadow.Defs.{Report, Platform, ShadowError, invalid_options}
use egress_router.Shadow.Access.{token, Connection, dial, IsToken, IsAllowed}
use egress_router.Shadow.Given.{IsGiven}
use egress_router.Shadow.Output.{check_output, check_output-Kept}
use egress_router.Shadow.Run.{run}
use egress_router.Shadow.Unharmed.{IsPlain, run-Spared}
use egress_router.System.Later.{IsLater, later}
use egress_router.Shadow.Complete.{IsComplete}
use egress_router.Shadow.Command.{
  Flags, Outside, flags_of, is_short, options, with_client, run_command,
}

token-Kept : (r value file : Text) → Kept r (token value file)
unfolding token
token-Kept r value file w = elim (Bool-cases (not (value == []) && not (file == []))) [
  | inl a ↦ rw a refl
  | inr a ↦ elim (Bool-cases (file == [])) [
    | inl b ↦ rw (a, b) refl
    | inr b ↦ rw (a, b) (read_file-Kept r file w)
  ]
]

module _ (sys : Platform) (out : Outside) (args : List Text) (getenv : Environment) where
  abbrev secret_of : Io ShadowError Text
  secret_of = token (getenv (lit "CATALOG_TOKEN")) (getenv (lit "CATALOG_TOKEN_FILE"))

  abbrev connect : Flags → Text → Result ShadowError Connection
  connect f s = dial sys (getenv (lit "CATALOG_ADDR")) s f.allow_insecure f.trusted_network

  -- The steps, the last one first.
  abbrev connected : Flags → Text → Connection → Io ShadowError Report
  connected f s c = run (with_client sys out f c) (options f s)

  abbrev authorized : Flags → Text → Io ShadowError Report
  authorized f s = lift (connect f s) >>= connected f s

  abbrev optioned : Flags → Io ShadowError Report
  optioned f = secret_of >>= authorized f

  abbrev placed : Flags → Io ShadowError Report
  placed f =
      lift (reject (is_short f.max_age || f.sing_box == []) invalid_options) >>= λ _. optioned f

  abbrev parsed : Flags → Io ShadowError Report
  parsed f = check_output sys f.base f.output >>= λ _. placed f

  run_command-Spared : (r : Text) → IsPlain r → Spared r (run_command sys out args getenv)
  unfolding run_command
  run_command-Spared r n =
      >>=-Spared r (lift (flags_of (out.parse_flags args))) parsed (λ _. refl)
        (λ _ f _.
          >>=-Spared r (check_output sys f.base f.output) (λ _. placed f)
            (check_output-Kept sys f.base f.output r)
            (λ _ _ _.
              >>=-Spared r (lift (reject (is_short f.max_age || f.sing_box == []) invalid_options))
                (λ _. optioned f) (λ _. refl)
                (λ _ _ _.
                  >>=-Spared r secret_of (authorized f)
                    (token-Kept r (getenv (lit "CATALOG_TOKEN"))
                      (getenv (lit "CATALOG_TOKEN_FILE")))
                    (λ _ s _.
                      >>=-Spared r (lift (connect f s)) (connected f s) (λ _. refl)
                        (λ _ c _. run-Spared (with_client sys out f c) (options f s) r n)))))

  -- A command that returns an error, at any stage and for any reason, leaves every file as it was,
  -- the output too, whose path is no temporary file.
  pub run_command_failed :
      (r : Text) (w : World)
      → IsPlain r
      → {e : ShadowError} → (run_command sys out args getenv w).1 ≡ err e
      → (run_command sys out args getenv w).0.files r ≡ w.files r
  run_command_failed r w n h =
      Spares-err r w (run_command sys out args getenv w) (run_command-Spared r n w) h

  -- What a command that succeeds has done: the token has gone over an allowed connection alone, and
  -- `started` is the world in which `shadow.Run` began.
  pub record IsExecuted (w w' : World) (r : Report) : Type 0 where
    pub flags : Flags
    pub given : flags_of (out.parse_flags args) ≡ ok flags
    pub secret : Text
    pub token : IsToken secret
    pub given_by :
        IsGiven (getenv (lit "CATALOG_TOKEN")) (getenv (lit "CATALOG_TOKEN_FILE")) w secret
    pub connection : Connection
    pub allowed :
        IsAllowed sys
          (getenv (lit "CATALOG_ADDR"))
          flags.allow_insecure
          flags.trusted_network
          connection
    pub started : World
    pub later : IsLater w started
    pub untouched : (p : Text) → started.files p ≡ w.files p
    pub complete :
        IsComplete (with_client sys out flags connection) (options flags secret) started w' r
