-- ===== src/AgentCore/Goal.antt =====
-- The goal of an agent (`GoalManager` of `src/kai/agent/goal.py`) and its file (`load_goal` and
-- `save_goal` of `src/kai/agent/core.py`).
use meetkai.Common.{
  ℕ, ◌+◌, ◌≡◌, refl, inl, inr, String, Bool, true, ◌&&◌, Option, none, some, Bool-cases,
  Option-cases, if◌then◌else◌,
}
use meetkai.Common.Text.{is_empty, append}

-- The description of the current goal, and the number of changes.
pub record GoalManager : Type 0 where
  pub current : Option String
  pub revision : ℕ

unfoldable pub set_goal : String → GoalManager → GoalManager
set_goal description g = record { current = some description; revision = g.revision + 1 }

unfoldable pub restore_goal : String → GoalManager → GoalManager
restore_goal description g = record g { current = some description }

unfoldable pub clear_goal : GoalManager → GoalManager
clear_goal g = elim g.current [
  | none ↦ g
  | some goal ↦ record { current = none; revision = g.revision + 1 }
]

-- `file` is the value under "goal" in the file, if there is a file that is an object with a text or
-- null there.
pub record GoalStore : Type 0 where
  pub has_path : Bool
  pub manager : GoalManager
  pub file : Option (Option String)

abbrev restored : Option (Option String) → GoalManager → GoalManager
restored (some (some goal)) g = if is_empty goal then g else restore_goal goal g
restored _ g = g

unfoldable pub load_goal : GoalStore → GoalStore
unfolding restore_goal
load_goal s = if s.has_path then record s { manager = restored s.file s.manager } else s

unfoldable pub save_goal : Bool → GoalStore → GoalStore
save_goal writable s =
    if s.has_path && writable then record s { file = some s.manager.current } else s

-- `goal_prompt_section`
unfoldable pub goal_prompt_section : GoalManager → String
goal_prompt_section g = elim g.current [
  | none ↦ ""
  | some goal ↦ if is_empty goal then "" else append "\n\nCurrent goal: " goal
]

-- After a save that succeeds, a new agent at the same path has the same goal, so that its prompts
-- name it, without a revision.
pub load_goal-save_goal :
    (s : GoalStore)
    → s.has_path ≡ true
    → let after = load_goal (record {
      has_path = true;
      manager = record { current = none; revision = 0 };
      file = (save_goal true s).file;
    }) in
      (goal_prompt_section after.manager ≡ goal_prompt_section s.manager)
      × (after.manager.revision ≡ 0)
unfolding load_goal save_goal goal_prompt_section restore_goal
load_goal-save_goal s path = rw path (elim (Option-cases s.manager.current) [
  | inl missing ↦ rw missing (refl, refl)
  | inr (goal, e) ↦ elim (Bool-cases (is_empty goal)) [
    | inl blank ↦ rw (e, blank) (refl, refl)
    | inr given ↦ rw (e, given) (rw given refl, refl)
  ]
])
