-- ===== src/Csrf.antt =====
-- `src/kai/cockpit/csrf.py`: the token check before the cockpit's forms. A request is an HTTP one with a
-- session; random tokens and the parsing of a form are arguments.
pub mod Checked
pub mod Samples
use meetkai.Common.{
  String, Bool, true, false, not, ◌&&◌, ◌||◌, Option, none, some, List, [], ◌∷◌, any, str_eq,
  if◌then◌else◌,
}
use meetkai.Common.Text.{is_empty, append, starts_with, lower_codes, same_codes, compare_digest}
use meetkai.Common.Try.{Try, returned, raised}

-- A message of the transport; `chunk body more` is "http.request".
pub data Message : Type 0 where
  disconnect : Message
  chunk : String → Bool → Message

-- `form_field` is the text under "_csrf" in the form that a body is parsed as; none if it is no form,
-- or the field is missing or no text.
pub record Request : Type 0 where
  pub method : String
  pub path : String
  pub headers : List (String × String)
  pub messages : List Message
  pub form_field : String → Option String

-- "csrf_token" of the session, none if it is missing or no text.
abbrev pub Session : Type 0
Session = Option String

-- What the application reads the body from: the transport, or the buffered body once.
pub data Source : Type 0 where
  transport : Source
  replayed : String → Source

-- The application is called with the token for templates, or the answer is 403; `crashed` is the
-- TypeError of the comparison with a token that is not ASCII.
pub data Outcome : Type 0 where
  to_app : Option String → Source → Outcome
  refused crashed : Outcome

abbrev same_method : String → String → Bool
same_method method name = same_codes (lower_codes method) (lower_codes name)

unfoldable pub is_safe_method : String → Bool
is_safe_method method =
    same_method method "GET" || (same_method method "HEAD" || same_method method "OPTIONS")

unfoldable pub is_exempt : String → Bool
is_exempt path = starts_with "/webhook/" path || str_eq path "/api/escalations"

unfoldable pub header_token : List (String × String) → Option String
header_token [] = none
header_token ((name, value) ∷ headers) =
    let rest = header_token headers in
    if same_codes (lower_codes name) (lower_codes "x-csrf-token") then some value else rest

unfoldable pub read_body : List Message → String
read_body [] = ""
read_body (disconnect ∷ messages) = ""
read_body (chunk body more ∷ messages) =
    let rest = read_body messages in if more then append body rest else append body ""

-- The comparison of two texts may raise.
unfoldable pub matches : Session → Option String → Try Bool
unfolding compare_digest
matches (some expected) (some submitted) =
    if is_empty expected then returned false else compare_digest expected submitted
matches _ _ = returned false

-- The token of a request, and where the application reads the body from then.
unfoldable pub submitted_token : Request → Option String × Source
unfolding header_token read_body
submitted_token r = elim (header_token r.headers) [
  | some token ↦ (some token, transport)
  | none ↦ let body = read_body r.messages in (r.form_field body, replayed body)
]

unfoldable pub handle_unsafe : Request → Session → Outcome
unfolding submitted_token matches is_exempt
handle_unsafe r session =
    if is_exempt r.path
    then to_app session transport
    else let (submitted, source) = submitted_token r in
      elim (matches session submitted) [
        | raised ↦ crashed
        | returned same ↦ if same then to_app session source else refused
      ]

abbrev minted : String → Session → String
minted fresh none = fresh
minted fresh (some token) = if is_empty token then fresh else token

unfoldable pub handle_safe : String → Session → Outcome × Session
handle_safe fresh session =
    let token = minted fresh session in (to_app (some token) transport, some token)

-- One request: what becomes of it, and the session after. `fresh` is a new random token.
unfoldable pub call : String → Request → Session → Outcome × Session
unfolding is_safe_method handle_safe handle_unsafe
call fresh r session =
    if is_safe_method r.method
    then handle_safe fresh session
    else (handle_unsafe r session, session)
