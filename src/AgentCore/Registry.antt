-- ===== src/AgentCore/Registry.antt =====
-- The tools of an agent, which are kept as a list and by name, and the instructions made of them.
pub mod Synced
use meetkai.Common.{
  String, Bool, true, false, not, Option, none, some, List, [], ◌∷◌, ◌++◌, any, select, str_eq,
  if◌then◌else◌,
}
use meetkai.Common.Text.{append}
use meetkai.Common.Dict.{Dict, put, remove}

pub record Registry (T : Type 0) : Type 0 where
  pub tools : List T
  pub tools_by_name : Dict T
  pub tool_workflows : List String
  pub tool_instructions : String

abbrev join_blocks : List String → String
join_blocks [] = ""
join_blocks (block ∷ []) = block
join_blocks (block ∷ (next ∷ blocks)) = append block (append "\n\n" (join_blocks (next ∷ blocks)))

-- `tool_workflow`
unfoldable pub tool_workflow : List String → Option String
tool_workflow [] = none
tool_workflow (block ∷ blocks) = some (join_blocks (block ∷ blocks))

-- `name` is `tool.metadata.name`, and `render` is `get_tool_instructions`.
module _ {T : Type 0} (name : T → String) (render : List T → Option String → String) where
  abbrev pub refreshed : Registry T → Registry T
  refreshed a = record a { tool_instructions = render a.tools (tool_workflow a.tool_workflows) }

  unfoldable pub register_tool : T → Registry T → Registry T
  unfolding tool_workflow
  register_tool tool a = refreshed (record a {
    tools_by_name = put (name tool) tool a.tools_by_name;
    tools = select (λ t. not (str_eq (name t) (name tool))) a.tools ++ tool ∷ [];
  })

  unfoldable pub unregister_tool : String → Registry T → Registry T
  unfolding tool_workflow
  unregister_tool gone a = refreshed (record a {
    tools_by_name = remove gone a.tools_by_name;
    tools = select (λ t. not (str_eq (name t) gone)) a.tools;
  })

  unfoldable pub clear_tools : Registry T → Registry T
  unfolding tool_workflow
  clear_tools a = refreshed (record a { tools = []; tools_by_name = [] })

  abbrev with_block : String → List String → List String
  with_block block blocks = if any (str_eq block) blocks then blocks else blocks ++ block ∷ []

  unfoldable pub add_tool_workflow : Option String → Registry T → Registry T
  unfolding tool_workflow
  add_tool_workflow none a = refreshed (record a { tool_workflows = [] })
  add_tool_workflow (some workflow) a =
      refreshed (record a { tool_workflows = with_block workflow a.tool_workflows })

  -- One change of the registry.
  pub data Change : Type 0 where
    register : T → Change
    unregister : String → Change
    clear : Change
    workflow : Option String → Change

  unfoldable pub change : Change → Registry T → Registry T
  unfolding register_tool unregister_tool clear_tools add_tool_workflow
  change (register tool) a = register_tool tool a
  change (unregister gone) a = unregister_tool gone a
  change clear a = clear_tools a
  change (workflow block) a = add_tool_workflow block a

  unfoldable pub change_all : List Change → Registry T → Registry T
  unfolding change
  change_all [] a = a
  change_all (c ∷ cs) a = change_all cs (change c a)
