-- ===== src/AgentCore/Samples.antt =====
-- Examples: a registry of tools that are their own names.
use meetkai.Common.{refl, String, true, Option, none, some, List, [], ◌∷◌}
use meetkai.Common.Dict.{lookup}
use meetkai.Common.Text.{append}
use meetkai.AgentCore.Registry.{Registry, Change, register, unregister, workflow, change_all}
use meetkai.AgentCore.Registry.Synced.{IsSynced, change_all-IsSynced}
use meetkai.AgentCore.Goal.{GoalStore}

abbrev name : String → String
name tool = tool

abbrev render : List String → Option String → String
render [] preamble = ""
render (tool ∷ tools) preamble = append tool (render tools preamble)

abbrev empty_registry : Registry String
empty_registry = record {
  tools = [];
  tools_by_name = [];
  tool_workflows = [];
  tool_instructions = "";
}

abbrev changes : List (Change name render)
changes =
    register "search" ∷ workflow (some "search first") ∷ register "note" ∷ unregister "search" ∷ []

change_all-IsSynced_example : IsSynced name render (change_all name render changes empty_registry)
unfolding lookup
change_all-IsSynced_example =
    change_all-IsSynced name render changes empty_registry ((λ n. refl), tt, refl)

abbrev goals : GoalStore
goals = record {
  has_path = true;
  manager = record { current = some "sell"; revision = 4 };
  file = none;
}
