-- ===== src/Manager/Files.antt =====
-- `readState` and `writeJSONAtomic` of subscription-manager/main.go, and the candidate config of
-- `buildState`.
use egress_router.Common.{[], ◌++◌, Text, lit, if◌then◌else◌, Result, ok, err, or_err, ℕ}
use egress_router.Paths.{dir}
use egress_router.System.{
  mkdir_all, create_temp, chmod, write, close, rename, ReadError, not_exist, io_error, read_file,
  Io, ◌>>=◌, ◌>>◌, require, removing,
}
use egress_router.Manager.Defs.{State, Platform}

-- What can go wrong with the temporary file: its mode, or its bytes.
pub data FillError : Type 0 where
  no_mode no_data : FillError

-- Chmod, Write and Close on a new file; it is closed in any case.
unfoldable pub fill : Text → ℕ → Text → Io FillError (Unit {0})
fill temporary mode data' w =
    let (w₁, moded) = chmod temporary mode w in
    if moded
    then (let (w₂, written) = write temporary data' w₁ in
        let (w₃, closed) = close temporary w₂ in
        (w₃, if written then (if closed then ok tt else err no_data) else err no_data))
    else ((close temporary w₁).0, err no_mode)

-- The two errors of `fill`, as the caller reports them.
abbrev pub fill_or : {E : Type 0} → Text → ℕ → Text → E → E → Io E (Unit {0})
fill_or temporary mode data' e e' w =
    let (w', r) = fill temporary mode data' w in
    (w', elim r [ ok _ ↦ ok tt | err x ↦ elim x [ no_mode ↦ err e | no_data ↦ err e' ] ])

abbrev pub created : {E : Type 0} → Text → Text → E → Io E Text
created dir prefix e w = let (w', t) = create_temp dir prefix w in (w', or_err t e)

pub data WriteError : Type 0 where
  write_error : WriteError

unfoldable pub replace_file : Text → Text → Io WriteError (Unit {0})
replace_file path temporary = require (rename temporary path) write_error

-- `writeJSONAtomic`, with the state as its value
unfoldable pub write_json_atomic : Platform → Text → State → Io WriteError (Unit {0})
write_json_atomic sys path state = do
  require (mkdir_all (dir path)) write_error
  temporary ← created (dir path) (lit ".tmp-") write_error
  removing temporary (do
    fill_or temporary 0o600 (sys.encode_state state ++ lit "\n") write_error write_error
    replace_file path temporary)

pub data StateError : Type 0 where
  state_error : StateError

abbrev pub decoded_state : Platform → Result ReadError Text → Result StateError State
decoded_state sys (ok s) = or_err (sys.decode_state s) state_error
decoded_state sys (err not_exist) = ok []
decoded_state sys (err io_error) = err state_error

-- `readState`: a missing file is the empty state.
unfoldable pub read_state : Platform → Text → Io StateError State
read_state sys path w = let (w', r) = read_file path w in (w', decoded_state sys r)
