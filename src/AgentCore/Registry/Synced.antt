-- ===== src/AgentCore/Registry/Synced.antt =====
-- The two views of the tools, and the instructions made of them.
use meetkai.Common.{
  ◌≡◌, refl, inl, inr, String, false, not, Option, none, some, List, [], ◌∷◌, ◌++◌, select, arith,
  Bool-cases, Option-cases, str_eq, eq_iff, eq_refl, if◌then◌else◌,
}
use meetkai.Common.Dict.{lookup, lookup-put, lookup-remove}
use meetkai.AgentCore.Registry.{
  Registry, Change, register, unregister, clear, workflow, register_tool, unregister_tool,
  clear_tools, add_tool_workflow, change, change_all, tool_workflow,
}

module _ {T : Type 0} (name : T → String) where
  -- The first tool of the list with that name.
  abbrev pub find : String → List T → Option T
  find n [] = none
  find n (t ∷ ts) = if str_eq (name t) n then some t else find n ts

  abbrev pub HasUniqueNames : List T → Type 0
  HasUniqueNames [] = Unit
  HasUniqueNames (t ∷ ts) = (find (name t) ts ≡ none) × HasUniqueNames ts

  find-select :
      (n gone : String) (ts : List T)
      → find n (select (λ t. not (str_eq (name t) gone)) ts)
        ≡ (if str_eq gone n then none else find n ts)
  find-select n gone [] = ground arith
  find-select n gone (t ∷ ts) =
      ground (arith, find-select n gone ts, eq_iff (name t) gone, eq_iff (name t) n, eq_iff gone n)

  find-last :
      (n : String) (tool : T) (ts : List T)
      → find n (ts ++ tool ∷ []) ≡ elim (find n ts) [
        | some t ↦ some t
        | none ↦ if str_eq (name tool) n then some tool else none
      ]
  find-last n tool [] = refl
  find-last n tool (t ∷ ts) = elim (Bool-cases (str_eq (name t) n)) [
    | inl here ↦ rw here refl
    | inr other ↦ rw other (find-last n tool ts)
  ]

  select-HasUniqueNames :
      (gone : String) (ts : List T)
      → HasUniqueNames ts
      → HasUniqueNames (select (λ t. not (str_eq (name t) gone)) ts)
  select-HasUniqueNames gone [] h = tt
  select-HasUniqueNames gone (t ∷ ts) h = elim (Bool-cases (str_eq (name t) gone)) [
    | inl same ↦ rw same (select-HasUniqueNames gone ts h.1)
    | inr other ↦ rw other (
      rw (find-select (name t) gone ts, h.0)
          (elim (Bool-cases (str_eq gone (name t))) [ inl e ↦ rw e refl | inr e ↦ rw e refl ]),
      select-HasUniqueNames gone ts h.1,
    )
  ]

  last-HasUniqueNames :
      (tool : T) (ts : List T)
      → find (name tool) ts ≡ none
      → HasUniqueNames ts
      → HasUniqueNames (ts ++ tool ∷ [])
  last-HasUniqueNames tool [] missing h = (refl, tt)
  last-HasUniqueNames tool (t ∷ ts) missing h = elim (Bool-cases (str_eq (name t) (name tool))) [
    | inl same ↦ absurd (cc (rw same at missing))
    | inr other ↦
        let fresh : str_eq (name tool) (name t) ≡ false =
          ground (arith, eq_iff (name tool) (name t), eq_refl (name t)) in
        (rw (find-last, h.0, fresh) refl, last-HasUniqueNames tool ts (rw other at missing) h.1)
  ]

-- The lookup by name finds the tool of that name in the list, each name stands once in the list, and
-- the instructions are rendered from the current tools and workflow blocks.
abbrev pub IsSynced :
    {T : Type 0} → (T → String) → (List T → Option String → String) → Registry T → Type 0
IsSynced name render a =
    ((n : String) → lookup n a.tools_by_name ≡ find name n a.tools)
    × HasUniqueNames name a.tools
    × (a.tool_instructions ≡ render a.tools (tool_workflow a.tool_workflows))

module _ {T : Type 0} (name : T → String) (render : List T → Option String → String) where
  register_tool-IsSynced :
      (tool : T) (a : Registry T)
      → IsSynced name render a
      → IsSynced name render (register_tool name render tool a)
  unfolding register_tool
  register_tool-IsSynced tool a (views, unique, text) = (
    (λ n.
        rw
          (
            lookup-put,
            views n,
            find-last name n tool (select (λ t. not (str_eq (name t) (name tool))) a.tools),
            find-select name n (name tool) a.tools,
          )
          (elim (Bool-cases (str_eq (name tool) n)) [
            | inl this ↦ rw (this, this) refl
            | inr other ↦ elim (Option-cases (find name n a.tools)) [
              | inl missing ↦ rw (other, missing, other) refl
              | inr (t, found) ↦ rw (other, found) refl
            ]
          ])),
    last-HasUniqueNames name tool _
        (rw (find-select name (name tool) (name tool) a.tools, eq_refl) refl)
        (select-HasUniqueNames name (name tool) a.tools unique),
    refl,
  )

  unregister_tool-IsSynced :
      (gone : String) (a : Registry T)
      → IsSynced name render a
      → IsSynced name render (unregister_tool name render gone a)
  unfolding unregister_tool
  unregister_tool-IsSynced gone a (views, unique, text) = (
    (λ n. rw (lookup-remove, views n, find-select name n gone a.tools) refl),
    select-HasUniqueNames name gone a.tools unique,
    refl,
  )

  change-IsSynced :
      (c : Change name render) (a : Registry T)
      → IsSynced name render a
      → IsSynced name render (change name render c a)
  unfolding change clear_tools add_tool_workflow lookup
  change-IsSynced (register tool) a h = register_tool-IsSynced tool a h
  change-IsSynced (unregister gone) a h = unregister_tool-IsSynced gone a h
  change-IsSynced clear a h = ((λ n. refl), tt, refl)
  change-IsSynced (workflow none) a h = (h.0, h.1, refl)
  change-IsSynced (workflow (some block)) a h = (h.0, h.1, refl)

-- Whatever tools and workflow blocks are added and removed, in any order: the lookup by name and the
-- list stay the same set of tools with each name once, and the instructions in the prompt are those
-- of the current tools and blocks.
pub change_all-IsSynced :
    {T : Type 0} (name : T → String) (render : List T → Option String → String)
    (cs : List (Change name render)) (a : Registry T)
    → IsSynced name render a
    → IsSynced name render (change_all name render cs a)
unfolding change_all
change_all-IsSynced name render [] a h = h
change_all-IsSynced name render (c ∷ cs) a h =
    change_all-IsSynced name render cs (change name render c a) (change-IsSynced name render c a h)
