-- ===== src/Templates/Samples.antt =====
-- Examples: a template that requires a tool and offers another one, and two layers of a config.
use meetkai.Common.{◌≡◌, refl, String, not, ◌&&◌, ◌||◌, List, [], ◌∷◌}
use meetkai.Templates.{
  Template, is_in, resolve_tools, is_tool_configured, known_tool_names, non_disableable_defaults,
}
use meetkai.Templates.Tools.{resolve_tools-final}
use meetkai.Templates.Merge.{
  Fields, leaf, dict, nil, field, get, deep_merge, layered, get-deep_merge,
}

abbrev template : Template
template = record {
  transport = "email";
  actions = "reply" ∷ [];
  required = "brain_query" ∷ [];
  bot_tools = "record_note" ∷ [];
  optional = "calcom" ∷ [];
}

abbrev env : String → String
env v = ""

abbrev defaults : List String
defaults = "calculate" ∷ "get_weather" ∷ []

abbrev disable : List String
disable = "calculate" ∷ "get_weather" ∷ []

resolve_tools-final_example :
    is_in (resolve_tools defaults env template [] disable).final_tools "calculate" ≡ (
      (is_in defaults "calculate"
        || is_in template.required "calculate"
        || is_in template.bot_tools "calculate"
        || (is_in template.optional "calculate" && is_tool_configured env "calculate")
        || (is_in [] "calculate" && is_in known_tool_names "calculate"))
      && not (
          is_in disable "calculate"
          && not
              (is_in non_disableable_defaults "calculate" || is_in template.required "calculate")))
resolve_tools-final_example = resolve_tools-final "calculate" defaults env template [] disable

abbrev lower : Fields
lower = field "llm" (dict (field "model" (leaf "m") nil)) nil

abbrev upper : Fields
upper = field "llm" (dict (field "seed" (leaf "1") nil)) nil

get-deep_merge_example :
    get "llm" (deep_merge lower upper) ≡ layered (get "llm" lower) (get "llm" upper)
unfolding get
get-deep_merge_example = get-deep_merge "llm" lower upper (refl, tt)
