-- ===== src/BotServer.antt =====
-- `src/kai/bots/webhook.py`: the routes that every bot serves to the cockpit and to its operator, and
-- the check of their shared signature. The digest, JSON and the bot's handlers are arguments.
pub mod Signed
pub mod Samples
use meetkai.Common.{
  ℕ, ◌*◌, String, Bool, true, false, not, ◌&&◌, Option, none, some, List, [], ◌∷◌, ltb, str_eq,
  if◌then◌else◌,
}
use meetkai.Common.Text.{is_empty, strip, char_count, lower_codes, same_codes, compare_digest}
use meetkai.Common.Try.{Try, returned, raised}
use meetkai.Common.Http.{Http, ok, http_error}

abbrev pub max_body_bytes : ℕ
max_body_bytes = 1024 * 1024

-- How a handler ends; NotImplementedError is told apart from other exceptions.
pub data Handled : Type 0 where
  answered : String → Handled
  not_implemented failed : Handled

-- The body of a request as JSON. `message` and `persist` are the keys that /tell reads, `message` as a
-- text and `persist` none if it is no Boolean; an absent one is "" and False.
pub record Payload : Type 0 where
  pub event : String
  pub message : String
  pub persist : Option Bool

-- `digest algorithm key body` is the hexadecimal HMAC.
pub record App : Type 0 where
  pub digest : String → String → String → String
  pub hmac_key : String
  pub hmac_algorithm : String
  pub json : String → Try Payload
  pub on_message : Option (Payload → Handled)
  pub on_tell : Option (String → Bool → Handled)
  pub on_ingest : Option (Payload → Handled)
  pub on_status : Option Handled
  pub on_clear : Option Handled

pub record Request : Type 0 where
  pub body : String
  pub hmac_header : String

-- A call of a handler.
pub data Call : Type 0 where
  message_call ingest_call : Payload → Call
  tell_call : String → Bool → Call
  status_call clear_call : Call

pub data Reply : Type 0 where
  handler_reply : String → Reply
  accepted malformed_body operator_turn_failed : Reply

-- `HMAC_ALGORITHMS.get(hmac_algorithm.lower(), HMAC_ALGORITHMS["sha512"])`
unfoldable pub algorithm_of : String → String
algorithm_of name =
    if same_codes (lower_codes name) (lower_codes "sha256") then "sha256" else "sha512"

-- Comparing a signature that is not ASCII raises.
unfoldable pub verify_signature : App → String → String → Try Bool
unfolding algorithm_of compare_digest
verify_signature app body signature =
    let expected = app.digest (algorithm_of app.hmac_algorithm) app.hmac_key body in
    if is_empty signature then returned false else compare_digest signature expected

-- The checks before a handler: the size, then the signature; none if they pass.
unfoldable pub refusal : App → Request → String → Option ℕ
unfolding verify_signature
refusal app r body =
    if ltb max_body_bytes (char_count body)
    then some 413
    else elim (verify_signature app body r.hmac_header) [
      | raised ↦ some 500
      | returned valid ↦ if valid then none else some 401
    ]

-- A handler's end as the answer of /ingest, /status and /clear.
abbrev answer : Handled → Http Reply
answer (answered text) = ok (handler_reply text)
answer not_implemented = http_error 404
answer failed = http_error 500

abbrev answer_any : Handled → Http Reply
answer_any (answered text) = ok (handler_reply text)
answer_any _ = http_error 500

-- The route and the calls of handlers that it makes.
abbrev pub Served : Type 0
Served = Http Reply × List Call

-- What a message event leads to: an exception of the handler is logged.
abbrev message_calls : App → Payload → List Call
message_calls app payload =
    if str_eq payload.event "message"
    then elim app.on_message [ none ↦ [] | some handler ↦ message_call payload ∷ [] ]
    else []

unfoldable pub webhook : App → Request → Served
unfolding refusal
webhook app r = elim (refusal app r r.body) [
  | some status ↦ (http_error status, [])
  | none ↦ elim (app.json r.body) [
    | raised ↦ (ok malformed_body, [])
    | returned payload ↦ (ok accepted, message_calls app payload)
  ]
]

abbrev told : Handled → Http Reply
told (answered text) = ok (handler_reply text)
told _ = ok operator_turn_failed

unfoldable pub tell_with : (String → Bool → Handled) → Payload → Served
unfolding strip
tell_with handler payload = elim payload.persist [
  | none ↦ (http_error 400, [])
  | some persist ↦
      let message = strip payload.message in
      if is_empty message
      then (http_error 400, [])
      else (told (handler message persist), tell_call message persist ∷ [])
]

unfoldable pub tell : App → Request → Served
unfolding refusal tell_with
tell app r = elim app.on_tell [
  | none ↦ (http_error 404, [])
  | some handler ↦ elim (refusal app r r.body) [
    | some status ↦ (http_error status, [])
    | none ↦ elim (app.json r.body) [
      | raised ↦ (http_error 400, [])
      | returned payload ↦ tell_with handler payload
    ]
  ]
]

unfoldable pub ingest : App → Request → Served
unfolding refusal
ingest app r = elim app.on_ingest [
  | none ↦ (http_error 404, [])
  | some handler ↦ elim (refusal app r r.body) [
    | some status ↦ (http_error status, [])
    | none ↦ elim (app.json r.body) [
      | raised ↦ (http_error 400, [])
      | returned payload ↦ (answer (handler payload), ingest_call payload ∷ [])
    ]
  ]
]

-- /status and /clear are signed over an empty body.
unfoldable pub unread : App → Request → Option Handled → Call → Served
unfolding refusal
unread app r handler call = elim handler [
  | none ↦ (http_error 404, [])
  | some handled ↦ elim (refusal app r "") [
    | some status ↦ (http_error status, [])
    | none ↦ (answer_any handled, call ∷ [])
  ]
]

unfoldable pub status : App → Request → Served
unfolding unread
status app r = unread app r app.on_status status_call

unfoldable pub clear : App → Request → Served
unfolding unread
clear app r = unread app r app.on_clear clear_call
