-- ===== src/ToolLoop.antt =====
-- `src/kai/agent/tool_loop.py`: the rounds of tool calls of one turn, and how the text of the model
-- becomes the action of the turn.
pub mod Parse
pub mod Rounds
pub mod Outcome
pub mod Samples
use meetkai.Common.{
  ℕ, zero, suc, String, Bool, true, false, not, ◌&&◌, ◌||◌, ◌⊎◌, inl, inr, Option, none, some, List,
  [], ◌∷◌, ◌++◌, map, any, str_eq, if◌then◌else◌, is_some,
}
use meetkai.Common.Text.{is_empty, append, strip}
use meetkai.Common.Dict.{Dict, lookup, contains, put}
use meetkai.Common.Try.{Try, returned, raised, ◌>>=◌}
use meetkai.ActionParsing.{
  strip_reasoning_channels, normalize_text, parse_kv_lines, repair_json, truthy_text,
}

pub data MessageRole : Type 0 where
  system user assistant tool : MessageRole

pub record ChatMessage : Type 0 where
  pub role : MessageRole
  pub content : Option String
  pub tool_call_id : Option String

-- One tool call that the model asks for; `V` is the type of JSON values.
pub record ToolCall (V : Type 0) : Type 0 where
  pub tool_id : String
  pub tool_name : String
  pub tool_kwargs : Dict V

pub record ToolCallRecord (V : Type 0) : Type 0 where
  pub name : String
  pub args : Dict V
  pub ok : Bool
  pub result : String

-- `extra` holds the fields other than `action` and `text`.
pub record ActionResult (V : Type 0) : Type 0 where
  pub action : String
  pub text : Option String
  pub extra : Dict V

pub record Response (V : Type 0) : Type 0 where
  pub message : ChatMessage
  pub tool_calls : List (ToolCall V)

-- What a tool does: its output as a text, or the text of its exception.
pub data Called : Type 0 where
  output failure : String → Called

-- What is outside of the code, for one turn and one `output_cls`: the two calls of the model, each a
-- function of the messages sent; the tools, which also may depend on what the turn has done so far;
-- pydantic's validation and parser (`none` and `raised` are exceptions; the parser gives an instance
-- or the fields of another object); `json.loads` (`none` if it is no object); `\w`.
pub record Outside (V T : Type 0) : Type 0 where
  pub achat_with_tools : List ChatMessage → Try (Response V)
  pub achat : List ChatMessage → Try (Option String)
  pub acall : List ChatMessage → T → Dict V → Called
  pub text_value : String → V
  pub value_text : V → String
  pub parse : String → Try (ActionResult V ⊎ Dict V)
  pub model_validate : Dict V → Option (ActionResult V)
  pub model_validate_json : String → Option (ActionResult V)
  pub validate_base : Dict V → Option (ActionResult V)
  pub loads : String → Try (Option (Dict V))
  pub is_word : ℕ → Bool
  pub action_values : List String
  pub json_instruction : String

-- The messages and records that the turn has collected.
pub record Turn (V : Type 0) : Type 0 where
  pub scratchpad : List ChatMessage
  pub records : List (ToolCallRecord V)

-- How the rounds end: by an action that was called as a tool, or with the text of the last message.
pub data LoopEnd (V : Type 0) : Type 0 where
  early : ActionResult V → Turn V → LoopEnd V
  finished : Option String → Turn V → LoopEnd V

abbrev pub max_tool_rounds : ℕ
max_tool_rounds = 24

abbrev pub or_blank : Option String → String
or_blank none = String.[]
or_blank (some t) = t

abbrev pub is_listed : String → List String → Bool
is_listed name names = any (str_eq name) names

abbrev pub is_control : String → Bool
is_control action = is_listed action ("silent" ∷ "sleep" ∷ "console" ∷ [])

-- `build_predict_messages`; an empty list has no first message (IndexError).
unfoldable pub build_predict_messages :
    List ChatMessage → List ChatMessage → String → Try (List ChatMessage)
build_predict_messages [] scratchpad instruction = raised
build_predict_messages (m ∷ ms) scratchpad instruction = elim m.role [
  | system ↦ returned (
      record {
        role = system;
        content = some (append (or_blank m.content) instruction);
        tool_call_id = none;
      }
        ∷ ms
      ++ scratchpad)
  | _ ↦ returned (
      record { role = system; content = some instruction; tool_call_id = none } ∷ (m ∷ ms)
      ++ scratchpad)
]

-- The message that asks for JSON again.
abbrev pub correction : ChatMessage
correction = record {
  role = system;
  content =
      some
        "The previous response was not valid JSON. Return ONLY a JSON object matching the schema — no prose, no code fences, no field labels.";
  tool_call_id = none;
}

module _ {V T : Type 0} (env : Outside V T) where
  unfoldable pub normalize_action_text : ActionResult V → ActionResult V
  unfolding normalize_text
  normalize_action_text a = record a { text = normalize_text a.text }

  abbrev pub normalized : Option (ActionResult V) → Option (ActionResult V)
  normalized none = none
  normalized (some a) = some (normalize_action_text a)

  -- Standard JSON extraction; an object of another class is validated by its fields.
  unfoldable pub parse_standard : String → Option (ActionResult V)
  unfolding normalize_action_text
  parse_standard text = elim (env.parse text) [
    | raised ↦ none
    | returned (inl a) ↦ normalized (some a)
    | returned (inr fields) ↦ normalized (env.model_validate fields)
  ]

  abbrev pub text_values : Dict String → Dict V
  text_values [] = []
  text_values ((k, t) ∷ kv) = (k, env.text_value t) ∷ text_values kv

  -- `key: value` lines; no line is the empty dict, which is falsy.
  unfoldable pub parse_fields : Dict V → Option (ActionResult V)
  unfolding normalize_action_text
  parse_fields [] = none
  parse_fields (f ∷ fs) = normalized (env.model_validate (f ∷ fs))

  unfoldable pub parse_repaired : Option String → Option (ActionResult V)
  unfolding normalize_action_text
  parse_repaired none = none
  parse_repaired (some repaired) =
      if is_empty repaired then none else normalized (env.model_validate_json repaired)

  unfoldable pub extract_payload : Option String → Dict V → Option (Dict V)
  extract_payload repaired kv = elim (truthy_text repaired) [
    | none ↦ some kv
    | some text ↦ elim (env.loads text) [ raised ↦ some kv | returned payload ↦ payload ]
  ]

  -- The payload's action is not one that the turn allows.
  unfoldable pub out_of_scope : Dict V → Bool
  unfolding lookup
  out_of_scope payload = elim (lookup "action" payload) [
    | none ↦ false
    | some value ↦ elim env.action_values [
      | [] ↦ false
      | a ∷ more ↦ not (is_listed (env.value_text value) (a ∷ more))
    ]
  ]

  -- No control action, and some text.
  unfoldable pub recoverable : ActionResult V → Bool
  recoverable base = not (is_control base.action) && not (is_empty (or_blank base.text))

  unfoldable pub recover_payload : Dict V → Option (ActionResult V)
  unfolding out_of_scope recoverable
  recover_payload payload =
      if out_of_scope payload
      then elim (env.validate_base payload) [
        | none ↦ none
        | some base ↦ if recoverable base then some base else none
      ]
      else none

  unfoldable pub recover_base_action : Option String → Dict V → Option (ActionResult V)
  unfolding extract_payload recover_payload
  recover_base_action repaired kv = elim (extract_payload repaired kv) [
    | none ↦ none
    | some payload ↦ recover_payload payload
  ]

  abbrev pub or_else : Option (ActionResult V) → Option (ActionResult V) → Option (ActionResult V)
  or_else none b = b
  or_else (some a) b = some a

  -- The four strategies; `none` is the ValueError.
  unfoldable pub parse_structured_text : String → Option (ActionResult V)
  unfolding parse_standard parse_fields parse_repaired recover_base_action normalize_action_text
      parse_kv_lines repair_json
  parse_structured_text text =
      let kv = text_values (parse_kv_lines env.is_word text) in
      let repaired = repair_json text in
      or_else (parse_standard text) (
        or_else (parse_fields kv)
          (or_else (parse_repaired repaired) (normalized (recover_base_action repaired kv))))

  unfoldable pub parse_final_action : Option String → Option (ActionResult V)
  unfolding parse_structured_text strip_reasoning_channels strip
  parse_final_action final_text = elim (truthy_text final_text) [
    | none ↦ none
    | some text ↦
        let raw_text = strip_reasoning_channels text in
        if is_empty (strip raw_text) then none else parse_structured_text raw_text
  ]

  unfoldable pub action_from_tool_call : ToolCall V → Option (ActionResult V)
  unfolding normalize_action_text put
  action_from_tool_call tc =
      normalized (env.model_validate (put "action" (env.text_value tc.tool_name) tc.tool_kwargs))

  module _ (tools_by_name : Dict T) (active_by_name : Option (Dict T)) where
    unfoldable pub maybe_resolve_action_tool_call : ToolCall V → Option (ActionResult V)
    unfolding action_from_tool_call contains
    maybe_resolve_action_tool_call tc =
        if not (is_listed tc.tool_name env.action_values) || contains tc.tool_name tools_by_name
        then none
        else action_from_tool_call tc

    unfoldable pub resolve_tool : String → Option T
    unfolding lookup
    resolve_tool name = elim active_by_name [
      | none ↦ lookup name tools_by_name
      | some active ↦ elim (lookup name active) [
        | some t ↦ some t
        | none ↦ lookup name tools_by_name
      ]
    ]

    unfoldable pub execute_tool_call : List ChatMessage → ToolCall V → String × Bool
    unfolding resolve_tool
    execute_tool_call sofar tc = elim (resolve_tool tc.tool_name) [
      | none ↦ (append "Error: unknown tool '" (append tc.tool_name "'"), false)
      | some t ↦ elim (env.acall sofar t tc.tool_kwargs) [
        | output text ↦ (text, true)
        | failure exc ↦ (append "Error calling " (append tc.tool_name (append ": " exc)), false)
      ]
    ]

    -- The callback is told as well; it returns nothing and its exceptions are dropped.
    unfoldable pub record_tool_call : ToolCall V → String → Bool → Turn V → Turn V
    record_tool_call tc result ok turn = record {
      scratchpad =
          turn.scratchpad
          ++ record { role = tool; content = some result; tool_call_id = some tc.tool_id } ∷ [];
      records =
          turn.records
          ++ record { name = tc.tool_name; args = tc.tool_kwargs; ok = ok; result = result } ∷ [];
    }

    -- The calls of one response, in order, up to one that is the action.
    unfoldable pub run_tool_calls : List (ToolCall V) → Turn V → Option (ActionResult V) × Turn V
    unfolding maybe_resolve_action_tool_call execute_tool_call record_tool_call
    run_tool_calls [] turn = (none, turn)
    run_tool_calls (tc ∷ tcs) turn =
        let (result, ok) = execute_tool_call turn.scratchpad tc in
        let rest = run_tool_calls tcs (record_tool_call tc result ok turn) in
        elim (maybe_resolve_action_tool_call tc) [ some a ↦ (some a, turn) | none ↦ rest ]

    -- The rounds; the number is what is left of `max_tool_rounds`.
    unfoldable pub run_rounds : ℕ → List ChatMessage → List ChatMessage → Turn V → Try (LoopEnd V)
    unfolding run_tool_calls build_predict_messages
    run_rounds zero messages loop_messages turn = returned (finished none turn)
    run_rounds (suc n) messages loop_messages turn =
        env.achat_with_tools (loop_messages ++ turn.scratchpad) >>= λ response.
        let told = record turn { scratchpad = turn.scratchpad ++ response.message ∷ [] } in
        elim response.tool_calls [
          | [] ↦ returned (finished response.message.content told)
          | tc ∷ tcs ↦
              let (action, turn') = run_tool_calls (tc ∷ tcs) told in
              elim action [
                | some a ↦ returned (early a turn')
                | none ↦ build_predict_messages messages [] env.json_instruction >>= λ next.
                    run_rounds n messages next turn'
              ]
        ]

  -- One of the two attempts: the raw text, and the action if it parses.
  unfoldable pub attempt : List ChatMessage → Try (String × Option (ActionResult V))
  unfolding parse_structured_text strip_reasoning_channels
  attempt predict_messages = env.achat predict_messages >>= λ content.
      let raw_text = strip_reasoning_channels (or_blank content) in
      returned (raw_text, parse_structured_text raw_text)

  abbrev pub or_raise : String × Option (ActionResult V) → Try (ActionResult V)
  or_raise (raw_text, none) = raised
  or_raise (raw_text, some a) = returned a

  -- What follows the first attempt: its action, or one more attempt with the correction.
  unfoldable pub second_attempt :
      List ChatMessage → String × Option (ActionResult V) → Try (ActionResult V)
  unfolding attempt
  second_attempt predict_messages (raw_text, some a) = returned a
  second_attempt predict_messages (raw_text, none) =
      attempt (
        predict_messages
        ++ record { role = assistant; content = some raw_text; tool_call_id = none }
          ∷ correction
          ∷ [])
      >>= or_raise

  unfoldable pub two_attempts : List ChatMessage → Try (ActionResult V)
  unfolding attempt second_attempt
  two_attempts predict_messages = attempt predict_messages >>= second_attempt predict_messages

  unfoldable pub resolve_terminal_action :
      List ChatMessage → List ChatMessage → Try (ActionResult V)
  unfolding two_attempts build_predict_messages
  resolve_terminal_action messages scratchpad =
      build_predict_messages messages scratchpad env.json_instruction >>= two_attempts

  -- After the rounds: the early action as it is, or the parsed text, or one asked for again.
  unfoldable pub finish_turn :
      List ChatMessage → LoopEnd V → Try (ActionResult V × List (ToolCallRecord V))
  unfolding parse_final_action resolve_terminal_action normalize_action_text
  finish_turn messages (early a turn) = returned (a, turn.records)
  finish_turn messages (finished final_text turn) = elim (parse_final_action final_text) [
    | some a ↦ returned (normalize_action_text a, turn.records)
    | none ↦ resolve_terminal_action messages turn.scratchpad >>= λ a.
        returned (normalize_action_text a, turn.records)
  ]

  unfoldable pub run_with_tools :
      Dict T → Option (Dict T) → List ChatMessage → Try (ActionResult V × List (ToolCallRecord V))
  unfolding run_rounds finish_turn
  run_with_tools tools_by_name active_by_name messages =
      run_rounds tools_by_name active_by_name max_tool_rounds messages messages
        (record { scratchpad = []; records = [] })
      >>= finish_turn messages
