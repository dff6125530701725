-- ===== src/Manager/Handler.antt =====
-- `handler` of subscription-manager/main.go.
use egress_router.Common.{
  ℕ, ◌*◌, Bool, true, false, ◌&&◌, ◌||◌, not, Option, none, some, List, [], map, Text, lit, ◌==◌,
  text_eq, if◌then◌else◌, ltb, leb, Result, ok, err,
}
use egress_router.Url.{Url}
use egress_router.Manager.Defs.{Subscription, State, Platform, Config, UpdateError, Report}
use egress_router.Manager.Files.{StateError, read_state}
use egress_router.Manager.Update.{Health, Service, update}

abbrev pub max_request_body : ℕ
max_request_body = 64 * 1024

-- The two calls of `Decode` on a body, through http.MaxBytesReader: the first object, where it
-- decodes without an unknown field, and whether the body ends behind it.
abbrev pub DecodeRequest : Type 0
DecodeRequest = Text → Option (Subscription × Bool)

-- A request; `content_length` is none where it is not positive.
pub record Request : Type 0 where
  pub method : Text
  pub path : Text
  pub content_length : Option ℕ
  pub body : Text

pub data Message : Type 0 where
  message_read_state_failed body_size invalid_json one_object https_required : Message
  refresh_failed not_found : Message

-- The value that is encoded.
pub data Reply : Type 0 where
  health_reply : Bool → Health → Reply
  names_reply : List Text → Reply
  report_reply : Report → Reply
  error_reply : Message → Reply

pub record HttpReply : Type 0 where
  pub status : ℕ
  pub value : Reply

abbrev pub reply : ℕ → Reply → HttpReply
reply status value = record { status = status; value = value }

abbrev pub is_none : {A : Type 0} → Option A → Bool
is_none none = true
is_none (some _) = false

-- !m.lastSuccess.IsZero() && m.lastError == ""
abbrev pub is_ready : Health → Bool
is_ready h = not (is_none h.last_success) && is_none h.last_error

unfoldable pub health_of : Health → HttpReply
health_of h = reply (if is_ready h then 200 else 503) (health_reply (is_ready h) h)

abbrev pub names_of : Result StateError State → HttpReply
names_of (ok state) = reply 200 (names_reply (map (λ (sub : Subscription). sub.name) state))
names_of (err _) = reply 500 (error_reply message_read_state_failed)

unfoldable pub get_subscriptions : Platform → Config → Service → Service × HttpReply
get_subscriptions sys cfg s =
    let (w, r) = read_state sys cfg.state s.world in (record s { world = w }, names_of r)

-- request.ContentLength <= 0 || request.ContentLength > maxRequestBody
abbrev pub bad_length : Option ℕ → Bool
bad_length none = true
bad_length (some n) = leb n 0 || ltb max_request_body n

-- payload.Name == "" || err != nil || parsed.Scheme != "https" || parsed.Hostname() == ""
abbrev pub is_https : Option Url → Bool
is_https none = false
is_https (some url) = url.scheme == lit "https" && not (url.hostname == [])

abbrev pub checked_payload :
    Platform → Option (Subscription × Bool) → Result Message (Option Subscription)
checked_payload sys none = err invalid_json
checked_payload sys (some (payload, alone)) =
    if not alone
    then err one_object
    else if payload.name == [] || not (is_https (sys.parse_url payload.url))
    then err https_required
    else ok (some payload)

-- The subscription of a POST request, or the message of its refusal.
unfoldable pub checked : Platform → DecodeRequest → Request → Result Message (Option Subscription)
checked sys decode r =
    if r.path == lit "/subscriptions"
    then if bad_length r.content_length then err body_size else checked_payload sys (decode r.body)
    else ok none

abbrev pub updated : Result UpdateError Report → HttpReply
updated (ok rep) = reply 200 (report_reply rep)
updated (err _) = reply 400 (error_reply refresh_failed)

unfoldable pub post : Platform → Config → DecodeRequest → Request → Service → Service × HttpReply
post sys cfg decode r s = elim (checked sys decode r) [
  | err message ↦ (s, reply 400 (error_reply message))
  | ok add ↦ let (s', result) = update sys cfg add s in (s', updated result)
]

-- `handler`
unfoldable pub handler : Platform → Config → DecodeRequest → Request → Service → Service × HttpReply
handler sys cfg decode r s =
    if r.method == lit "GET" && r.path == lit "/health"
    then (s, health_of s.health)
    else if r.method == lit "GET" && r.path == lit "/subscriptions"
    then get_subscriptions sys cfg s
    else if r.method == lit "POST" && (r.path == lit "/subscriptions" || r.path == lit "/refresh")
    then post sys cfg decode r s
    else (s, reply 404 (error_reply not_found))
