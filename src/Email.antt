-- ===== src/Email.antt =====
-- `src/kai/bots/email/__init__.py`: the email bot. An inbound event runs a turn of the agent, whose
-- action the bot carries out; an operator's instruction does the same. The turn, the mail server and
-- the download of attachments are arguments.
pub mod Address
pub mod Operator
pub mod Attachments
pub mod Sends
pub mod Blocked
pub mod Samples
use meetkai.Common.{
  ℕ, suc, ◌-◌, String, Bool, true, false, not, ◌&&◌, ◌||◌, Option, none, some, List, [], ◌∷◌, ◌++◌,
  any, map, leb, ltb, str_eq, if◌then◌else◌,
}
use meetkai.Common.Text.{
  is_empty, append, strip, char_count, take_chars, lower_codes, same_codes, split_on, splitlines,
}
use meetkai.Common.Dict.{Dict, lookup}
use meetkai.Common.Try.{Try, returned, raised}
use meetkai.Webhooks.Resend.{NormalizedMessage, Attachment}
use meetkai.ToolLoop.{ToolCallRecord}
use Address.{valid_recipient, is_blacklisted}

-- An argument of a tool call: a text, or the text that `str` gives of another value.
pub data Value : Type 0 where
  text other : String → Value

abbrev pub str : Value → String
str (text s) = s
str (other s) = s

pub record EmailAction : Type 0 where
  pub action : String
  pub text : Option String
  pub target : Option String

pub record ChatResult : Type 0 where
  pub action : EmailAction
  pub tool_calls : List (ToolCallRecord Value)
  pub error : Option String

-- A mail as the server gets it. `in_reply_to` is also its References header.
pub record Mail : Type 0 where
  pub display_name : String
  pub from_address : String
  pub to : String
  pub subject : String
  pub in_reply_to : Option String
  pub body : String

-- What turns and sends change: the mails that the server took, the last first, the configured
-- blacklist, and the assistant messages recorded in histories.
pub record World : Type 0 where
  pub outbox : List Mail
  pub blacklist : List String
  pub recorded : List (String × String)

-- `deliver` is the server's answer to a mail. `download` is `process_attachments` with its settings.
-- `chat` is a turn of the agent with the text, images, videos and conversation id.
pub record Bot : Type 0 where
  pub display_name : String
  pub from_address : String
  pub smtp_enabled : Bool
  pub deliver : Mail → Try (Unit {0})
  pub post_process : String → String
  pub today : String
  pub download : String → List Attachment → Try (List String × List String × String)
  pub chat : String → List String → List String → String → World → Try ChatResult × World
  pub operator_turn : Option (String → World → Try ChatResult × World)

abbrev pub or_blank : Option String → String
or_blank none = ""
or_blank (some s) = s

-- `require_smtp`, `valid_recipient` and `send_via_smtp`
unfoldable pub send_mail : Bot → Mail → World → Try (Unit {0}) × World
unfolding valid_recipient
send_mail bot mail w =
    if not bot.smtp_enabled
    then (raised, w)
    else if not (valid_recipient mail.to)
    then (raised, w)
    else elim (bot.deliver mail) [
      | raised ↦ (raised, w)
      | returned done ↦ (returned done, record w { outbox = mail ∷ w.outbox })
    ]

abbrev quoted_line : String → String
quoted_line line = if is_empty line then ">" else append "> " line

abbrev join_lines : List String → String
join_lines [] = ""
join_lines (line ∷ []) = line
join_lines (line ∷ (next ∷ lines)) = append line (append "\n" (join_lines (next ∷ lines)))

unfoldable pub format_quote : String → String → String → String
unfolding strip splitlines
format_quote today original_body sender =
    let body = strip original_body in
    let shown = if ltb 2000 (char_count body) then append (take_chars 2000 body) " […]" else body in
    append "On " (
      append today (
        append ", "
          (append sender (append " wrote:\n" (join_lines (map quoted_line (splitlines shown)))))))

abbrev or_default : String → String → String
or_default s t = if is_empty s then t else s

unfoldable pub reply_mail : Bot → String → String → String → String → String → Mail
unfolding format_quote
reply_mail bot to subject body message_id original_body = record {
  display_name = bot.display_name;
  from_address = bot.from_address;
  to = to;
  subject = append "Re: " (or_default subject "your email");
  in_reply_to = if is_empty message_id then none else some message_id;
  body = append (bot.post_process body) (append "\n\n" (format_quote bot.today original_body to));
}

-- `send_reply`
unfoldable pub send_reply :
    Bot → String → String → String → String → String → World → Try (Unit {0}) × World
unfolding send_mail reply_mail
send_reply bot to subject body message_id original_body w =
    send_mail bot (reply_mail bot to subject body message_id original_body) w

-- `send_email`
unfoldable pub fresh_mail : Bot → String → String → String → Mail
fresh_mail bot to subject body = record {
  display_name = bot.display_name;
  from_address = bot.from_address;
  to = to;
  subject = or_default subject "Re: your email";
  in_reply_to = none;
  body = bot.post_process body;
}

unfoldable pub send_email : Bot → String → String → String → World → Try (Unit {0}) × World
unfolding send_mail fresh_mail
send_email bot to subject body w = send_mail bot (fresh_mail bot to subject body) w

abbrev arg_text : String → Dict Value → String
arg_text key args = elim (lookup key args) [ none ↦ "" | some v ↦ str v ]

-- One recorded call that delivered to the target.
unfoldable pub delivered_to : String → ToolCallRecord Value → Bool
unfolding strip
delivered_to target tc =
    (str_eq tc.name "send_email" && tc.ok)
    && same_codes (lower_codes (strip (arg_text "to" tc.args))) (lower_codes (strip target))

unfoldable pub sent_via_tool : ChatResult → String → Bool
unfolding delivered_to
sent_via_tool result target = any (delivered_to target) result.tool_calls

-- `action.action == "reply" and action.text and not self.sent_via_tool(result, source)`
unfoldable pub must_reply : ChatResult → String → Bool
unfolding sent_via_tool
must_reply result source =
    (str_eq result.action.action "reply" && not (is_empty (or_blank result.action.text)))
    && not (sent_via_tool result source)

-- `process_inbound_email` after the turn
unfoldable pub carry_out : Bot → NormalizedMessage → ChatResult → World → Try (Unit {0}) × World
unfolding must_reply send_reply
carry_out bot event result w =
    if must_reply result event.source
    then send_reply bot event.source event.subject (or_blank result.action.text) event.message_id
        event.text w
    else (returned tt, w)

unfoldable pub process_inbound_email : Bot → NormalizedMessage → World → Try (Unit {0}) × World
unfolding carry_out
process_inbound_email bot event w = elim (bot.download event.text event.attachments) [
  | raised ↦ (raised, w)
  | returned (images, videos, enriched) ↦
      let (turn, w') = bot.chat enriched images videos event.source w in
      elim turn [ raised ↦ (raised, w') | returned result ↦ carry_out bot event result w' ]
]

abbrev pub succeeded : Try (Unit {0}) → Bool
succeeded raised = false
succeeded (returned u) = true

-- `ingest_event`: whether the event is accepted.
unfoldable pub ingest_event : Bot → NormalizedMessage → World → Bool × World
unfolding is_blacklisted process_inbound_email
ingest_event bot event w =
    if not (str_eq event.event "email.inbound")
    then (false, w)
    else if is_blacklisted w.blacklist event.source
    then (true, w)
    else let (done, w') = process_inbound_email bot event w in (succeeded done, w')
