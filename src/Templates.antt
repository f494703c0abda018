-- ===== src/Templates.antt =====
-- `src/kai/templates/resolver.py`: the tools of a deployment, from the template, the operator's wishes
-- and the environment, and the merge of the layers of a config. The sets are lists; `default_tools`
-- are the names of the tools that every agent has, which `get_tools` builds.
pub mod Tools
pub mod Merge
pub mod Samples
use meetkai.Common.{
  String, Bool, true, false, not, ◌&&◌, ◌||◌, Option, none, some, List, [], ◌∷◌, ◌++◌, any, all,
  select, str_eq, if◌then◌else◌,
}
use meetkai.Common.Text.{is_empty, append}
use meetkai.Common.Dict.{Dict, lookup}

abbrev pub is_in : List String → String → Bool
is_in names name = any (str_eq name) names

abbrev pub non_disableable_defaults : List String
non_disableable_defaults = "escalate" ∷ "blacklist" ∷ "calculate" ∷ []

abbrev pub tool_env_map : Dict (List String)
tool_env_map =
    ("brain_query", "KAI_BRAIN_BASE_URL" ∷ "KAI_BRAIN_MORPHIK_TOKEN" ∷ [])
    ∷ ("sql_query", "KAI_SQL_DSN" ∷ [])
    ∷ (
      "send_email",
      "KAI_SMTP_TOOL_HOST" ∷ "KAI_SMTP_TOOL_USERNAME" ∷ "KAI_SMTP_TOOL_PASSWORD"
          ∷ "KAI_SMTP_TOOL_FROM_ADDRESS" ∷ [],
    )
    ∷ ("calcom", "KAI_CALCOM_API_KEY" ∷ [])
    ∷ []

abbrev pub known_tool_names : List String
known_tool_names =
    "web_search" ∷ "get_webpage_content" ∷ "get_time_in_timezone" ∷ "get_weather" ∷ "calculate"
    ∷ "schedule_task" ∷ "list_tasks" ∷ "cancel_task" ∷ "record_note" ∷ "get_conversation_messages"
    ∷ "brain_query" ∷ "sql_query" ∷ "describe_database" ∷ "send_email" ∷ "calcom"
    ∷ "list_event_types" ∷ "find_available_slots" ∷ "book_appointment" ∷ "reschedule_booking"
    ∷ "cancel_booking" ∷ "escalate" ∷ "blacklist" ∷ []

pub record Template : Type 0 where
  pub transport : String
  pub actions : List String
  pub required : List String
  pub bot_tools : List String
  pub optional : List String

-- `env` is `os.environ.get`, "" for a variable that is not set.
unfoldable pub is_tool_configured : (String → String) → String → Bool
unfolding lookup
is_tool_configured env tool_name = elim (lookup tool_name tool_env_map) [
  | none ↦ true
  | some env_vars ↦ all (λ v. not (is_empty (env v))) env_vars
]

-- `tools.add(tool)` and `tools.discard(tool)`
abbrev pub add_name : String → List String → List String
add_name tool tools = if is_in tools tool then tools else tools ++ tool ∷ []

abbrev pub discard_name : String → List String → List String
discard_name tool tools = select (λ t. not (str_eq t tool)) tools

-- The loops of `build_tool_set`, each with its test.
unfoldable pub add_names : (String → Bool) → List String → List String → List String
add_names wanted [] tools = tools
add_names wanted (tool ∷ names) tools =
    add_names wanted names (if wanted tool then add_name tool tools else tools)

unfoldable pub discard_names : List String → List String → List String → List String
discard_names cannot_disable [] tools = tools
discard_names cannot_disable (tool ∷ names) tools =
    discard_names cannot_disable names (
      if not (is_in cannot_disable tool) && is_in tools tool
      then discard_name tool tools
      else tools)

abbrev pub always : String → Bool
always tool = true

unfoldable pub build_tool_set :
    List String
    → (String → String)
    → Template
    → List String
    → List String
    → List String
    → List String
unfolding is_tool_configured add_names discard_names
build_tool_set default_tools env template operator_enable operator_disable cannot_disable =
    discard_names cannot_disable operator_disable (
      add_names (is_in known_tool_names) operator_enable (
        add_names (is_tool_configured env) template.optional
          (add_names always template.bot_tools (add_names always template.required default_tools))))

-- A refused wish, with its reason.
pub data Reason : Type 0 where
  required_by_template safety_tool : Reason

unfoldable pub build_rejected_disable :
    List String → List String → List String → List (String × Reason)
build_rejected_disable [] cannot_disable template_required = []
build_rejected_disable (tool ∷ tools) cannot_disable template_required =
    let rest = build_rejected_disable tools cannot_disable template_required in
    if not (is_in cannot_disable tool)
    then rest
    else (tool, if is_in template_required tool then required_by_template else safety_tool) ∷ rest

-- A missing tool, with the variables that it requires; ["unknown"] does not arise, since a tool that
-- has none is configured.
abbrev env_of : String → List String
env_of tool = elim (lookup tool tool_env_map) [ none ↦ "unknown" ∷ [] | some vars ↦ vars ]

-- `build_missing_required` and `validate_tools`
unfoldable pub build_missing_required :
    (String → String) → List String → List (String × List String)
unfolding is_tool_configured lookup
build_missing_required env [] = []
build_missing_required env (tool ∷ tools) =
    let rest = build_missing_required env tools in
    if not (is_tool_configured env tool) then (tool, env_of tool) ∷ rest else rest

pub record ToolResolution : Type 0 where
  pub final_tools : List String
  pub missing_required : List (String × List String)
  pub rejected_disable : List (String × Reason)
  pub rejected_unknown : List String

unfoldable pub resolve_tools :
    List String → (String → String) → Template → List String → List String → ToolResolution
unfolding build_tool_set build_rejected_disable build_missing_required
resolve_tools default_tools env template operator_enable operator_disable =
    let cannot_disable = non_disableable_defaults ++ template.required in
    record {
      final_tools =
          build_tool_set default_tools env template operator_enable operator_disable cannot_disable;
      missing_required = build_missing_required env template.required;
      rejected_disable = build_rejected_disable operator_disable cannot_disable template.required;
      rejected_unknown = select (λ t. not (is_in known_tool_names t)) operator_enable;
    }

abbrev email_valid_actions : List String
email_valid_actions = "reply" ∷ "silent" ∷ "console" ∷ []

-- `validate_actions`: the actions that the transport does not support.
unfoldable pub validate_actions : Template → List String
validate_actions template =
    let valid = if str_eq template.transport "email" then email_valid_actions else [] in
    select (λ a. not (is_in valid a)) template.actions
