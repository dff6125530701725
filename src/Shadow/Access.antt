-- ===== src/Shadow/Access.antt =====
-- `Token` and `Dial` of shadow.go: the secret, and whom it is sent to.
use egress_router.Common.{
  ℕ, ◌+◌, ◌≤◌, Bool, true, false, ◌&&◌, ◌||◌, not, Option, none, some, [], ◌∷◌, ◌++◌, ◌≡◌, ◌≢◌, ◌⊎◌,
  inl, inr, refl, ap, ◌∙◌, arith, Text, lit, ◌==◌, text_eq, text_beq_iff, if◌then◌else◌, leb, ltb,
  length, take, all, All, trim_space, contains_any, atoi, within, Result, ok, err, reject, ◌>>=◌,
  ◌>>◌, >>=-eq-ok, Bool-cases,
}
use mathlib.Core.Path.{subst}
use egress_router.System.{World, ReadError, read_file, Io}
use egress_router.Shadow.Defs.{
  Platform, ShadowError, invalid_catalog_address, invalid_catalog_token,
  plaintext_requires_loopback, trusted_requires_insecure, client_setup_failed, two_token_sources,
  read_token_failed, token_required,
}

abbrev pub token_limit : ℕ
token_limit = 8192

-- A token file: the reader stops one byte past the limit.
abbrev pub token_in : Result ReadError Text → Result ShadowError Text
token_in (err _) = err read_token_failed
token_in (ok s) =
    let buffer = take (token_limit + 1) s in
    if ltb token_limit (length buffer) then err read_token_failed else ok (trim_space buffer)

-- c < 33 || c > 126; the bytes of a rune above 127 are above 127.
abbrev pub is_visible : ℕ → Bool
is_visible c = leb 33 c && leb c 126

unfoldable pub checked_token : Text → Result ShadowError Text
checked_token value =
    if value == [] || ltb token_limit (length value)
    then err token_required
    else if all is_visible value
    then ok value
    else err invalid_catalog_token

-- `Token`
unfoldable pub token : Text → Text → Io ShadowError Text
token value file w =
    if not (value == []) && not (file == [])
    then (w, err two_token_sources)
    else if file == []
    then (w, checked_token value)
    else (let (w', r) = read_file file w in
        (w', elim (token_in r) [ err e ↦ err e | ok s ↦ checked_token s ]))

-- A connection: where it goes, and whether without TLS.
pub record Connection : Type 0 where
  pub target : Text
  pub plaintext : Bool

abbrev pub blanks : Text
blanks = lit " \t\r\n"

-- The host of an address, and its port.
abbrev checked_host : Text → Option ℕ → Result ShadowError (Text × ℕ)
checked_host host none = err invalid_catalog_address
checked_host host (some p) =
    if host == [] || contains_any host (lit "/% \t\r\n")
    then err invalid_catalog_address
    else ok (host, p)

abbrev host_and_port : Option (Text × Text) → Result ShadowError (Text × ℕ)
host_and_port none = err invalid_catalog_address
host_and_port (some (host, port)) = checked_host host (within 1 65535 (atoi port))

-- Plaintext or TLS.
unfoldable pub transport : Platform → Text → Bool → Bool → Result ShadowError Bool
transport sys host allow_insecure trusted_network =
    if allow_insecure
    then if not (host == lit "localhost") && (not (sys.is_loopback host) && not trusted_network)
      then err plaintext_requires_loopback
      else ok true
    else if trusted_network
    then err trusted_requires_insecure
    else ok false

-- `Dial`
unfoldable pub dial : Platform → Text → Text → Bool → Bool → Result ShadowError Connection
dial sys addr secret allow_insecure trusted_network = do
  place ← host_and_port (sys.split_host_port addr)
  reject (secret == [] || contains_any secret blanks) invalid_catalog_token
  plaintext ← transport sys place.0 allow_insecure trusted_network
  reject (not (sys.new_client (lit "passthrough:///" ++ addr))) client_setup_failed
  ok (record { target = lit "passthrough:///" ++ addr; plaintext = plaintext })

-- A visible ASCII byte.
abbrev pub IsVisible : ℕ → Type 0
IsVisible c = (33 ≤ c) × (c ≤ 126)

all-IsVisible : (s : Text) → all is_visible s ≡ true → All IsVisible s
all-IsVisible [] h = tt
all-IsVisible (c ∷ s) h = (ground (arith, h), all-IsVisible s (ground (arith, h)))

pub record IsToken (s : Text) : Type 0 where
  pub ne_nil : s ≢ []
  pub short : length s ≤ token_limit
  pub visible : All IsVisible s

-- What a test of a text and a limit leaves.
pub passed :
    (limit : ℕ) (b : Bool) (value : Text) {s : Text}
    → (if value == [] || ltb limit (length value)
        then err token_required
        else if b
        then ok value
        else err invalid_catalog_token)
      ≡ ok s
    → (value ≡ s) × (value ≢ []) × (length value ≤ limit) × (b ≡ true)
passed limit b value h = elim (Bool-cases (value == [])) [
  | inl e ↦ absurd (ground (arith, e, h))
  | inr e ↦ (
    ground (arith, e, h),
    (λ q. ground (arith, e, q, text_beq_iff value [])),
    ground (arith, e, h),
    ground (arith, e, h),
  )
]

checked_token-IsToken : (value : Text) {s : Text} → checked_token value ≡ ok s → IsToken s
unfolding checked_token
checked_token-IsToken value h =
    let (e, n, l, v) = passed token_limit (all is_visible value) value h in
    subst IsToken e (record { ne_nil = n; short = l; visible = all-IsVisible value v })

-- A token that `token` returns, from the value or from the file, has from 1 to 8192 bytes, each a
-- visible ASCII character.
pub token-IsToken :
    (value file : Text) (w : World) {s : Text} → (token value file w).1 ≡ ok s → IsToken s
unfolding token
token-IsToken value file w {s} h = elim (Bool-cases (not (value == []) && not (file == []))) [
  | inl a ↦ absurd (ground (arith, rw a at h))
  | inr a ↦ elim (Bool-cases (file == [])) [
    | inl b ↦ checked_token-IsToken value (rw (a, b) at h)
    | inr b ↦ from_file (token_in (read_file file w).1) (rw (a, b) at h)
  ]
]
  where
    from_file :
        (r : Result ShadowError Text)
        → elim r as (λ _. Result ShadowError Text) [ err e ↦ err e | ok t ↦ checked_token t ] ≡ ok s
        → IsToken s
    from_file (err e) q = ground arith
    from_file (ok t) q = checked_token-IsToken t q

-- A connection that may carry the token.
pub record IsAllowed (sys : Platform) (addr : Text) (allow_insecure trusted_network : Bool)
    (c : Connection) : Type 0 where
  pub host : Text
  pub port : Text
  pub split : sys.split_host_port addr ≡ some (host, port)
  pub number : ℕ
  pub numbered : within 1 65535 (atoi port) ≡ some number
  pub ne_nil : host ≢ []
  pub target : c.target ≡ lit "passthrough:///" ++ addr
  pub protected :
      ((c.plaintext ≡ false) × (trusted_network ≡ false))
      ⊎ ((allow_insecure ≡ true)
          × ((host ≡ lit "localhost") ⊎ ((sys.is_loopback host ≡ true) ⊎ (trusted_network ≡ true))))

transport-protected :
    (sys : Platform) (host : Text) (allow_insecure trusted_network : Bool) {plaintext : Bool}
    → transport sys host allow_insecure trusted_network ≡ ok plaintext
    → ((plaintext ≡ false) × (trusted_network ≡ false))
      ⊎ ((allow_insecure ≡ true)
          × ((host ≡ lit "localhost") ⊎ ((sys.is_loopback host ≡ true) ⊎ (trusted_network ≡ true))))
unfolding transport
transport-protected sys host false false h = inl (ground arith)
transport-protected sys host false true h = absurd (ground arith)
transport-protected sys host true trusted h = inr (
  refl,
  (elim (Bool-cases (host == lit "localhost")) [
    | inl e ↦ inl ((text_beq_iff host (lit "localhost")).0 e)
    | inr e ↦ inr (ground (arith, e, h))
  ]),
)

checked_host-ok :
    (host : Text) (p : Option ℕ) {host' : Text} {number : ℕ}
    → checked_host host p ≡ ok (host', number)
    → (host ≡ host') × (p ≡ some number) × (host ≢ [])
checked_host-ok host none h = absurd (ground (arith, h))
checked_host-ok host (some n) h = elim (Bool-cases (host == [])) [
  | inl e ↦ absurd (ground (arith, e, h))
  | inr e ↦ elim (Bool-cases (contains_any host (lit "/% \t\r\n"))) [
    | inl f ↦ absurd (ground (arith, e, f, h))
    | inr f ↦
        let q = rw (e, f) at h in
        (ground (arith, q), ground (arith, q), λ r. ground (arith, e, r, text_beq_iff host []))
  ]
]

host_and_port-ok :
    (o : Option (Text × Text)) {host : Text} {number : ℕ}
    → host_and_port o ≡ ok (host, number)
    → (port : Text) × (o ≡ some (host, port))
      × (within 1 65535 (atoi port) ≡ some number)
      × (host ≢ [])
host_and_port-ok none h = absurd (ground (arith, h))
host_and_port-ok (some (host, port)) h =
    let (e, w, n) = checked_host-ok host (within 1 65535 (atoi port)) h in
    (port, ap (λ t. some (t, port)) e, w, λ q. n (e ∙ q))

-- A connection that `dial` makes goes to the given address, which has a host and a port from 1 to
-- 65535; it has TLS and the network is not declared trusted, or plaintext is allowed and the host
-- is localhost or a loopback address or the network is declared trusted.
pub dial-IsAllowed :
    (sys : Platform) (addr secret : Text) (allow_insecure trusted_network : Bool) {c : Connection}
    → dial sys addr secret allow_insecure trusted_network ≡ ok c
    → IsAllowed sys addr allow_insecure trusted_network c
unfolding dial
dial-IsAllowed sys addr secret allow trusted {c} h =
    let ((host, number), p, h₁) = >>=-eq-ok (host_and_port (sys.split_host_port addr)) _ h in
    let (_, _, h₂) =
      >>=-eq-ok (reject (secret == [] || contains_any secret blanks) invalid_catalog_token) _ h₁ in
    let (plaintext, t, h₃) = >>=-eq-ok (transport sys host allow trusted) _ h₂ in
    let (_, _, h₄) =
      >>=-eq-ok (reject (not (sys.new_client (lit "passthrough:///" ++ addr))) client_setup_failed)
        _ h₃ in
    let (port, split, numbered, n) = host_and_port-ok (sys.split_host_port addr) p in
    record {
      host = host;
      port = port;
      split = split;
      number = number;
      numbered = numbered;
      ne_nil = n;
      target = ground (arith, h₄);
      protected =
          subst
            (λ b.
              ((b ≡ false) × (trusted ≡ false))
              ⊎ ((allow ≡ true)
                  × ((host ≡ lit "localhost")
                      ⊎ ((sys.is_loopback host ≡ true) ⊎ (trusted ≡ true)))))
            (ground (arith, h₄)) (transport-protected sys host allow trusted t);
    }
