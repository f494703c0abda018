-- ===== src/Email/Operator.antt =====
-- The operator's side of `src/kai/bots/email/__init__.py`: an instruction runs a turn, whose action
-- is carried out and reported.
use meetkai.Common.{
  String, Bool, true, false, ◌&&◌, Option, none, some, List, [], ◌∷◌, map, ltb, str_eq,
  if◌then◌else◌,
}
use meetkai.Common.Text.{is_empty, append, strip, char_count, take_chars}
use meetkai.Common.Dict.{Dict, lookup}
use meetkai.Common.Try.{returned, raised}
use meetkai.ToolLoop.{ToolCallRecord}
use meetkai.Email.{Value, text, other, ChatResult, World, Bot, or_blank, sent_via_tool, send_email}

-- One entry of `actions`.
pub record Deed : Type 0 where
  pub tool : String
  pub ok : Bool
  pub target : Option Value
  pub text : Option Value

pub record TellResult : Type 0 where
  pub ok : Bool
  pub reply : String
  pub actions : List Deed

abbrev pub is_none : Option String → Bool
is_none none = true
is_none (some s) = false

-- A send without a subject; a failure is logged.
unfoldable pub try_send : Bot → String → String → World → Bool × World
unfolding send_email
try_send bot target out_text w =
    let (sent, w') = send_email bot target "" out_text w in
    (elim sent [ raised ↦ false | returned done ↦ true ], w')

-- `record_assistant_message`
abbrev pub record_message : String → String → World → World
record_message target out_text w = record w { recorded = (target, out_text) ∷ w.recorded }

abbrev snippet : String → String
snippet out_text =
    if ltb 60 (char_count out_text) then append (take_chars 57 out_text) "..." else out_text

unfoldable pub delivery : Bot → ChatResult → String → String → World → Bool × World
unfolding sent_via_tool try_send
delivery bot result target out_text w =
    if sent_via_tool result target then (true, w) else try_send bot target out_text w

unfoldable pub send_operator_reply :
    Bot → ChatResult → String → String → World → (Bool × String) × World
unfolding delivery
send_operator_reply bot result target out_text w =
    if is_empty target
    then ((false, "reply action missing target"), w)
    else if is_empty out_text
    then ((false, "reply action missing text"), w)
    else let (sent, w') = delivery bot result target out_text w in
      if sent
      then (
        (true, append "sent to " (append target (append ": " (snippet out_text)))),
        record_message target out_text w',
      )
      else ((false, append "failed to send to " target), w')

unfoldable pub dispatch_reply : Bot → ChatResult → World → TellResult × World
unfolding send_operator_reply strip
dispatch_reply bot result w =
    let target = strip (or_blank result.action.target) in
    let out_text = or_blank result.action.text in
    let ((sent, reply), w') = send_operator_reply bot result target out_text w in
    (
      record {
        ok = sent && is_none result.error;
        reply = reply;
        actions =
            record {
              tool = "send_reply";
              ok = sent;
              target = some (text target);
              text = some (text out_text);
            }
            ∷ [];
      },
      w',
    )

abbrev shortened : Value → Value
shortened (text s) =
    if ltb 200 (char_count s) then text (append (take_chars 197 s) "...") else text s
shortened (other s) = other s

abbrev shown : String → Dict Value → Option Value
shown key args = elim (lookup key args) [ none ↦ none | some v ↦ some (shortened v) ]

unfoldable pub deed_of : ToolCallRecord Value → Deed
deed_of tc = record {
  tool = tc.name;
  ok = tc.ok;
  target = shown "target" tc.args;
  text = shown "text" tc.args;
}

-- `error: {result.error}` for an error that is not empty
abbrev console_reply : ChatResult → String
console_reply result = elim result.error [
  | none ↦ or_blank result.action.text
  | some e ↦ if is_empty e then or_blank result.action.text else append "error: " e
]

unfoldable pub dispatch_console : ChatResult → TellResult
unfolding deed_of
dispatch_console result = record {
  ok = is_none result.error;
  reply = console_reply result;
  actions = map deed_of result.tool_calls;
}

unfoldable pub dispatch_operator_action : Bot → ChatResult → World → TellResult × World
unfolding dispatch_reply dispatch_console
dispatch_operator_action bot result w =
    if str_eq result.action.action "reply"
    then dispatch_reply bot result w
    else if str_eq result.action.action "silent"
    then (
      record {
        ok = true;
        reply = "";
        actions = record { tool = "silent"; ok = true; target = none; text = none } ∷ [];
      },
      w,
    )
    else (dispatch_console result, w)

abbrev failed_tell : String → TellResult
failed_tell reply = record { ok = false; reply = reply; actions = [] }

unfoldable pub handle_operator : Bot → String → World → TellResult × World
unfolding dispatch_operator_action
handle_operator bot message w = elim bot.operator_turn [
  | none ↦ (failed_tell "bot has no agent", w)
  | some turn ↦
      let (ended, w') = turn message w in
      elim ended [
        | raised ↦ (failed_tell "operator turn failed", w')
        | returned result ↦ dispatch_operator_action bot result w'
      ]
]
