-- ===== src/AgentCore/Chat.antt =====
-- The prompt of a turn and the turn itself (`build_messages`, `chat`, `observe` and `complete` of
-- `src/kai/agent/core.py`), over the history of `meetkai.History`. The loop of rounds is an argument:
-- it is modelled in `meetkai.ToolLoop`.
use meetkai.Common.{
  ℕ, ◌+◌, ◌/◌, String, Bool, ◌&&◌, Option, none, some, List, [], ◌∷◌, ◌++◌, map, if◌then◌else◌,
  ◌==◌,
}
use meetkai.Common.Lists.{length}
use meetkai.Common.Text.{is_empty, append, strip, char_count, count_char}
use meetkai.Common.Try.{Try, returned, raised}
use meetkai.History.{Agent, Message, user, get_history, persist_turn, store_and_mark}
use meetkai.AgentCore.Goal.{GoalManager, goal_prompt_section}

abbrev pub or_blank : Option String → String
or_blank none = ""
or_blank (some s) = s

-- What the prompt is made of: `default_prompt` is DEFAULT_SYSTEM_PROMPT, and `time_section` is what
-- `time_prompt_section` renders.
pub record Prompting : Type 0 where
  pub system_prompt : Option String
  pub default_prompt : String
  pub goal : GoalManager
  pub tool_instructions : String
  pub time_section : String

pub record Overrides : Type 0 where
  pub system_prompt : Option String
  pub extra_context : Option String
  pub reply_style : Option String

abbrev or_else : String → String → String
or_else s t = if is_empty s then t else s

abbrev if_given : Option String → String → String
if_given none before = ""
if_given (some s) before = if is_empty s then "" else append before s

unfoldable pub get_system_prompt : Prompting → Overrides → String
unfolding goal_prompt_section
get_system_prompt p o =
    append
      (or_else (or_blank o.system_prompt) (or_else (or_blank p.system_prompt) p.default_prompt))
      (append (goal_prompt_section p.goal) (
        append (if_given o.extra_context "\n\n")
          (append p.tool_instructions (append p.time_section (if_given o.reply_style "\n")))))

-- A message of the prompt; one with media has its text as the first block.
pub data Prompt : Type 0 where
  system : String → Prompt
  past : Message → Prompt
  asks : String → List String → List String → Prompt

unfoldable pub build_messages :
    Bool
    → Prompting
    → Overrides
    → Option String
    → String
    → List String
    → List String
    → Agent
    → Try (List Prompt) × Agent
unfolding get_system_prompt get_history
build_messages deletable p o conversation_id text images videos a =
    let (found, a') = get_history deletable conversation_id a in
    elim found [
      | raised ↦ (raised, a')
      | returned history ↦ (
        returned
            (system (get_system_prompt p o) ∷ (map past history ++ asks text images videos ∷ [])),
        a',
      )
    ]

pub record MessageContext : Type 0 where
  pub sender_name : String
  pub multi_party : Bool
  pub addressed_to_bot : Bool

-- `format_user_message`
unfoldable pub format_user_message : String → Option MessageContext → String
format_user_message message none = message
format_user_message message (some c) =
    let suffix = if c.multi_party && c.addressed_to_bot then " (addressing you)" else "" in
    let header = append "[" (append c.sender_name (append suffix "]")) in
    append header (append (if count_char 10 message == 0 then " " else "\n") message)

abbrev total_bytes : List String → ℕ
total_bytes [] = 0
total_bytes (b ∷ bs) = char_count b + total_bytes bs

-- `show` renders a number.
abbrev summary : (ℕ → String) → String → List String → List String
summary show label [] = []
summary show label (b ∷ bs) =
    append (show (length (b ∷ bs)))
      (append label (append (show (total_bytes (b ∷ bs) / 1024)) " KB"))
    ∷ []

abbrev listed : List String → String
listed [] = ""
listed (s ∷ []) = s
listed (s ∷ (t ∷ ts)) = append s (append ", " (listed (t ∷ ts)))

-- `history_placeholder`
unfoldable pub history_placeholder : (ℕ → String) → String → List String → List String → String
history_placeholder show formatted images videos =
    let media = summary show " image(s), " images ++ summary show " video(s), " videos in
    elim media [
      | [] ↦ formatted
      | m ∷ ms ↦ append formatted (append "\n[" (append (listed (m ∷ ms)) "]"))
    ]

pub record Action : Type 0 where
  pub action : String
  pub text : Option String

-- How the loop of a turn ends: with an action and the records of its calls, or an exception, of which
-- the text is kept.
pub data LoopEnd (R : Type 0) : Type 0 where
  acted : Action → List R → LoopEnd R
  timed_out failed : String → LoopEnd R

pub record ChatResult (R : Type 0) : Type 0 where
  pub reply : String
  pub tool_calls : List R
  pub action : Action
  pub error : Option String

-- What a turn is called with; `now` is the time of its messages, and `run` is `run_with_tools`,
-- whose tools may change the agent.
pub record Turn (R : Type 0) : Type 0 where
  pub deletable : Bool
  pub now : String
  pub prompting : Prompting
  pub overrides : Overrides
  pub message : String
  pub context : Option MessageContext
  pub conversation_id : Option String
  pub images : List String
  pub videos : List String
  pub store_user_message : Bool
  pub is_delegated : Action → Bool
  pub show : ℕ → String
  pub run : List Prompt → Agent → LoopEnd R × Agent
  pub key_error : String

module _ {R : Type 0} where
  abbrev pub failure : String → String → ChatResult R
  failure error message = record {
    reply = "";
    tool_calls = [];
    action = record { action = "error"; text = some message };
    error = some error;
  }

  -- `chat_error` for a time-out, and for another exception
  unfoldable pub timeout_result : String → ChatResult R
  timeout_result exc =
      failure (append "timeout: " exc) "Sorry, the language model took too long to respond."

  unfoldable pub error_result : String → ChatResult R
  error_result exc = failure exc "Sorry, I encountered an error processing your message."

  -- The turn after its loop. An exception of `persist_turn` is a KeyError of `get_history`.
  unfoldable pub finish_chat : Turn R → String → LoopEnd R → Agent → ChatResult R × Agent
  unfolding timeout_result error_result history_placeholder persist_turn
  finish_chat t formatted (timed_out exc) a = (timeout_result exc, a)
  finish_chat t formatted (failed exc) a = (error_result exc, a)
  finish_chat t formatted (acted action records) a =
      let (stored, a') =
        persist_turn t.deletable t.conversation_id t.store_user_message (t.is_delegated action)
          (history_placeholder t.show formatted t.images t.videos) (or_blank action.text) t.now a in
      elim stored [
        | raised ↦ (error_result t.key_error, a')
        | returned done ↦ (
          record {
            reply = or_blank action.text;
            tool_calls = records;
            action = action;
            error = none;
          },
          a',
        )
      ]

  -- An exception of `build_messages` leaves `chat`.
  unfoldable pub run_turn : Turn R → String → Try (List Prompt) × Agent → Try (ChatResult R) × Agent
  unfolding finish_chat
  run_turn t formatted (raised, a) = (raised, a)
  run_turn t formatted (returned prompt, a) =
      let (end, during) = t.run prompt a in
      let (result, a') = finish_chat t formatted end during in (returned result, a')

  unfoldable pub chat : Turn R → Agent → Try (ChatResult R) × Agent
  unfolding format_user_message build_messages run_turn
  chat t a =
      let formatted = format_user_message t.message t.context in
      run_turn t formatted (
        build_messages t.deletable t.prompting t.overrides t.conversation_id formatted t.images
          t.videos a)

unfoldable pub observe :
    Bool
    → (ℕ → String)
    → String
    → Option MessageContext
    → Option String
    → List String
    → List String
    → String
    → Agent
    → Try (Unit {0}) × Agent
unfolding strip format_user_message history_placeholder store_and_mark
observe deletable show message context conversation_id images videos now a =
    if is_empty (strip message) && (length images == 0 && length videos == 0)
    then (returned tt, a)
    else store_and_mark deletable conversation_id
        ((
          record {
            role = user;
            content = history_placeholder show (format_user_message message context) images videos;
          },
          now,
        )
          ∷ [])
        a

-- `complete`: `ask` is the call of the model, `strip` removes its reasoning channels.
unfoldable pub complete : (String → Try String) → (String → String) → String → String
complete ask strip_channels prompt = elim (ask prompt) [
  | raised ↦ ""
  | returned content ↦ strip_channels content
]
