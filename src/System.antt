-- ===== src/System.antt =====
-- The system calls of the two programs: a file system in which every call may fail, and the web.
-- `plan` says what the system does at each call, so a theorem for every plan covers every failure.
pub mod Frame
pub mod Temporary
pub mod Later
pub mod Recover
use egress_router.Common.{
  ℕ, ◌+◌, Bool, true, false, ◌&&◌, Option, none, some, List, [], ◌∷◌, ◌++◌, ◌≡◌, refl, Text, lit,
  ◌==◌, text_eq, if◌then◌else◌, Result, ok, err,
}

pub record File : Type 0 where
  pub content : Text
  pub mode : ℕ

-- `goes` holds the random part of a new temporary name; `fails` what a failed write left behind.
pub data Fate : Type 0 where
  goes : Text → Fate
  fails : Text → Fate

-- The answer to one HTTP request: none, a redirect to a location, or a status with a body of which
-- the flag says whether it arrived whole.
pub data Answer : Type 0 where
  no_answer : Answer
  redirect : Text → Answer
  answer : ℕ → Text → Bool → Answer

-- What stands at a path that is no regular file.
pub data Entry : Type 0 where
  link directory special : Entry

-- `others` are the links and directories, which no call changes; `inodes` is the file that a path
-- leads to behind its links, at a call; `clock` is the time at a call, in seconds.
pub record World : Type 0 where
  pub files : Text → Option File
  pub plan : ℕ → Fate
  pub web : ℕ → Text → Answer
  pub others : Text → Option Entry
  pub inodes : ℕ → Text → Option ℕ
  pub clock : ℕ → ℕ
  pub calls : ℕ

abbrev pub fate : World → Fate
fate w = w.plan w.calls

abbrev pub tick : World → World
tick w = record w { calls = w.calls + 1 }

abbrev pub set_file : Text → Option File → World → World
set_file p f w = record w { files = λ q. if q == p then f else w.files q; calls = w.calls + 1 }

-- A call that may fail has the flag `true` where it succeeds.
abbrev pub Call : Type 0
Call = World → World × Bool

-- The calls on files change nothing but the file named; directories are not modelled.
unfoldable pub mkdir_all : Text → Call
mkdir_all dir w = elim (fate w) [ goes _ ↦ (tick w, true) | fails _ ↦ (tick w, false) ]

abbrev with_mode : ℕ → Option File → Option File
with_mode mode none = none
with_mode mode (some f) = some (record f { mode = mode })

abbrev with_content : Text → Option File → Option File
with_content s none = none
with_content s (some f) = some (record f { content = s })

unfoldable pub chmod : Text → ℕ → Call
chmod p mode w = elim (fate w) [
  | goes _ ↦ (set_file p (with_mode mode (w.files p)) w, true)
  | fails _ ↦ (tick w, false)
]

-- A failed write may leave any bytes.
unfoldable pub write : Text → Text → Call
write p data' w = elim (fate w) [
  | goes _ ↦ (set_file p (with_content data' (w.files p)) w, true)
  | fails left ↦ (set_file p (with_content left (w.files p)) w, false)
]

unfoldable pub close : Text → Call
close p w = elim (fate w) [ goes _ ↦ (tick w, true) | fails _ ↦ (tick w, false) ]

unfoldable pub remove : Text → Call
remove p w = elim (fate w) [ goes _ ↦ (set_file p none w, true) | fails _ ↦ (tick w, false) ]

-- rename(2) is atomic: it fails and changes nothing, or the target is the old file.
unfoldable pub rename : Text → Text → Call
rename p q w = elim (fate w) [
  | goes _ ↦ elim (w.files p) [
    | none ↦ (tick w, false)
    | some f ↦ (
      record w {
        files = λ r. if r == q then some f else if r == p then none else w.files r;
        calls = w.calls + 1;
      },
      true,
    )
  ]
  | fails _ ↦ (tick w, false)
]

-- os.CreateTemp: a name that no file has, in mode 0600.
abbrev pub temp_name : Text → Text → Text → Text
temp_name dir prefix random = dir ++ (lit "/" ++ (prefix ++ random))

abbrev pub new_file : File
new_file = record { content = []; mode = 0o600 }

unfoldable pub create_temp : Text → Text → World → World × Option Text
create_temp dir prefix w = elim (fate w) [
  | goes random ↦ elim (w.files (temp_name dir prefix random)) [
    | none ↦ (
      set_file (temp_name dir prefix random) (some new_file) w,
      some (temp_name dir prefix random),
    )
    | some _ ↦ (tick w, none)
  ]
  | fails _ ↦ (tick w, none)
]

pub data ReadError : Type 0 where
  not_exist io_error : ReadError

-- os.ReadFile
unfoldable pub read_file : Text → World → World × Result ReadError Text
read_file p w = elim (fate w) [
  | goes _ ↦ elim (w.files p) [ none ↦ (tick w, err not_exist) | some f ↦ (tick w, ok f.content) ]
  | fails _ ↦ (tick w, err io_error)
]

-- os.Lstat
pub data Info : Type 0 where
  missing unknown regular : Info
  other : Entry → Info

abbrev pub info_of : Option Entry → Option File → Info
info_of (some e) f = other e
info_of none none = missing
info_of none (some _) = regular

unfoldable pub lstat : Text → World → World × Info
lstat p w = elim (fate w) [
  | goes _ ↦ (tick w, info_of (w.others p) (w.files p))
  | fails _ ↦ (tick w, unknown)
]

-- os.Stat, up to os.SameFile: the number of the file.
unfoldable pub stat : Text → World → World × Option ℕ
stat p w = elim (fate w) [ goes _ ↦ (tick w, w.inodes w.calls p) | fails _ ↦ (tick w, none) ]

-- time.Now().Unix()
unfoldable pub now : World → World × ℕ
now w = (tick w, w.clock w.calls)

-- ctx.Err(): the flag is `true` where the context is neither cancelled nor out of time.
unfoldable pub alive : Call
alive w = elim (fate w) [ goes _ ↦ (tick w, true) | fails _ ↦ (tick w, false) ]

-- Sync on an open file.
unfoldable pub sync : Text → Call
sync p w = elim (fate w) [ goes _ ↦ (tick w, true) | fails _ ↦ (tick w, false) ]

-- One HTTP request.
unfoldable pub request : Text → World → World × Answer
request url w = (tick w, w.web w.calls url)

-- A function with an error that uses the system.
abbrev pub Io : Type 0 → Type 0 → Type 0
Io E A = World → World × Result E A

infixl 5 ◌>>=◌ ◌>>◌
abbrev pub ◌>>=◌ : {E A B : Type 0} → Io E A → (A → Io E B) → Io E B
◌>>=◌ m f w = let (w', r) = m w in elim r [ ok a ↦ f a w' | err e ↦ (w', err e) ]

abbrev pub ◌>>◌ : {E B : Type 0} → Io E (Unit {0}) → Io E B → Io E B
m >> k = m >>= λ _. k

abbrev pub pure : {E A : Type 0} → A → Io E A
pure a w = (w, ok a)

abbrev pub raise : {E A : Type 0} → E → Io E A
raise e w = (w, err e)

-- A pure step with an error.
abbrev pub lift : {E A : Type 0} → Result E A → Io E A
lift r w = (w, r)

-- `if err := call(); err != nil { return e }`
abbrev pub require : {E : Type 0} → Call → E → Io E (Unit {0})
require call e w = let (w', b) = call w in (w', if b then ok tt else err e)

-- `defer os.Remove(p)`: the error of the removal is ignored.
abbrev pub removing : {E A : Type 0} → Text → Io E A → Io E A
removing p m w = let (w', r) = m w in ((remove p w').0, r)
