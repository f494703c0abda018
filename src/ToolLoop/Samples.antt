-- ===== src/ToolLoop/Samples.antt =====
-- A turn that calls one tool, answers with an action in JSON, and texts that are cleaned or repaired.
use meetkai.Common.{◌≡◌, refl, inl, String, true, false, none, some, List, [], ◌∷◌}
use meetkai.Common.Dict.{Dict}
use meetkai.Common.Try.{returned, raised}
use meetkai.ActionParsing.{repair_json}
use meetkai.ToolLoop.{
  Outside, ActionResult, ChatMessage, user, assistant, Response, ToolCall, ToolCallRecord, output,
  run_with_tools, parse_structured_text,
}
use meetkai.ToolLoop.Parse.{ComesFrom, parse_structured_text-ComesFrom}
use meetkai.ToolLoop.Rounds.{Answers, is_tool}
use meetkai.ToolLoop.Outcome.{RoundsLeave, run_with_tools-Ended}

abbrev question : ChatMessage
question = record { role = user; content = some "what time is it"; tool_call_id = none }

abbrev clock_call : ToolCall String
clock_call = record { tool_id = "1"; tool_name = "clock"; tool_kwargs = [] }

abbrev calling : Response String
calling = record {
  message = record { role = assistant; content = none; tool_call_id = none };
  tool_calls = clock_call ∷ [];
}

abbrev answering : Response String
answering = record {
  message = record {
    role = assistant;
    content = some "{\"action\":\"reply\"}";
    tool_call_id = none;
  };
  tool_calls = [];
}

abbrev reply : ActionResult String
reply = record { action = "reply"; text = some "noon"; extra = [] }

-- The model calls the clock on the question alone, and answers afterwards.
abbrev respond : List ChatMessage → Response String
respond [] = answering
respond (m ∷ []) = calling
respond (m ∷ n ∷ ms) = answering

abbrev env : Outside String String
env = record {
  achat_with_tools = λ sent. returned (respond sent);
  achat = λ sent. raised;
  acall = λ sofar t args. output "12:00";
  text_value = λ t. t;
  value_text = λ v. v;
  parse = λ text. returned (inl reply);
  model_validate = λ fields. none;
  model_validate_json = λ text. none;
  validate_base = λ fields. none;
  loads = λ text. raised;
  is_word = λ c. false;
  action_values = "reply" ∷ "silent" ∷ [];
  json_instruction = "JSON only";
}

abbrev tools : Dict String
tools = ("clock", "clock") ∷ []

abbrev clock_record : ToolCallRecord String
clock_record = record { name = "clock"; args = []; ok = true; result = "12:00" }

respond_model : (sent : List ChatMessage) → is_tool (respond sent).message.role ≡ false
respond_model [] = refl
respond_model (m ∷ []) = refl
respond_model (m ∷ n ∷ ms) = refl

env-Answers : Answers env tools none
env-Answers sent r e = let same : respond sent ≡ r = cc e in rw (← same) (respond_model sent)

turn_returns : run_with_tools env tools none (question ∷ []) ≡ returned (reply, clock_record ∷ [])
unfolding run_with_tools
turn_returns = refl

parsed : parse_structured_text env "{}" ≡ some reply
unfolding parse_structured_text
parsed = refl

repaired : repair_json "Sure: {\"action\": \"reply" ≡ some "{\"action\": \"reply\"}"
unfolding repair_json
repaired = refl

run_with_tools-Ended_example :
    ComesFrom env reply × RoundsLeave env tools none (question ∷ []) (clock_record ∷ [])
run_with_tools-Ended_example =
    run_with_tools-Ended env tools none (question ∷ []) reply (clock_record ∷ []) env-Answers
      turn_returns

parse_structured_text-ComesFrom_example : ComesFrom env reply
parse_structured_text-ComesFrom_example = parse_structured_text-ComesFrom env "{}" reply parsed
