-- ===== src/Tasks/Store.antt =====
-- `TaskStore` of `src/kai/agent/scheduler.py`. A method that changes the store returns the new
-- store. Each method holds the store's lock from its first read to its last write, so a call is
-- one step. `writable` says whether the file system lets the call write (no OSError).
use meetkai.Common.{
  ◌+◌, String, Bool, true, false, ◌&&◌, Option, none, some, List, [], ◌∷◌, map, select, leb, str_eq,
  if◌then◌else◌,
}
use meetkai.Common.Sort.{sort_by}
use meetkai.Common.Dict.{Dict, lookup, put, remove, values}
use meetkai.Common.Persisted.{load_items}
use meetkai.Common.Try.{Try, returned, raised}
use meetkai.Calendar.{Datetime, instant}
use meetkai.Tasks.{Task, TaskDict, to_dict, from_dict, compute_next_due}

-- `file` is what the file at `_path` holds, if there is one.
pub record TaskStore : Type 0 where
  pub has_path : Bool
  pub tasks : Dict Task
  pub file : Option (List TaskDict)

unfoldable pub save_locked : Bool → TaskStore → TaskStore
save_locked writable s =
    if s.has_path && writable then record s { file = some (map to_dict (values s.tasks)) } else s

-- The loop of `load` over the items of a file that this store wrote.
unfoldable pub load_tasks : List TaskDict → Dict Task → Dict Task
load_tasks = load_items (λ t. t.id) from_dict

-- `load`, as the constructor calls it on an empty store.
unfoldable pub load : TaskStore → TaskStore
unfolding load_tasks
load s =
    if s.has_path
    then elim s.file [ none ↦ s | some items ↦ record s { tasks = load_tasks items s.tasks } ]
    else s

unfoldable pub add : Bool → Task → TaskStore → TaskStore
unfolding save_locked
add writable task s = save_locked writable (record s { tasks = put task.id task s.tasks })

unfoldable pub cancel : Bool → String → String → TaskStore → Bool × TaskStore
unfolding save_locked
cancel writable task_id chat_id s = elim (lookup task_id s.tasks) [
  | none ↦ (false, s)
  | some task ↦
      if str_eq task.chat_id chat_id
      then (true, save_locked writable (record s { tasks = remove task_id s.tasks }))
      else (false, s)
]

-- `tasks.sort(key=lambda t: t.due_at)`
unfoldable pub sort_by_due : List Task → List Task
sort_by_due = sort_by (λ t. instant t.due_at)

-- `wanted is None or value == wanted`
abbrev pub matches : Option String → String → Bool
matches none value = true
matches (some wanted) value = str_eq value wanted

unfoldable pub list_for : Option String → Option String → TaskStore → List Task
unfolding sort_by_due
list_for chat_id owner_id s =
    select (λ t. matches chat_id t.chat_id && matches owner_id t.owner_id)
      (sort_by_due (values s.tasks))

unfoldable pub is_due : Datetime → Task → Bool
is_due now t = leb (instant t.due_at) (instant now)

-- `model_copy(update={"due_at": ..., "occurrences": ...})`
abbrev pub rescheduled : Task → Datetime → Task
rescheduled t d = record t { due_at = d; occurrences = t.occurrences + 1 }

abbrev pub put_next : Task → Option Datetime → Dict Task → Dict Task
put_next t none tasks = tasks
put_next t (some d) tasks = put t.id (rescheduled t d) tasks

-- The loop of `pop_due`. An exception of `compute_next_due` leaves what was popped so far popped.
unfoldable pub pop_each : List Task → Dict Task → Try (List Task) × Dict Task
pop_each [] tasks = (returned [], tasks)
pop_each (t ∷ ts) tasks = elim (compute_next_due t) [
  | raised ↦ (raised, remove t.id tasks)
  | returned next ↦
      let (fired, tasks') = pop_each ts (put_next t next (remove t.id tasks)) in
      (elim fired [ returned rest ↦ returned (t ∷ rest) | raised ↦ raised ], tasks')
]

unfoldable pub due_tasks : Datetime → TaskStore → List Task
due_tasks now s = select (is_due now) (values s.tasks)

abbrev pub save_if_any : Bool → List Task → TaskStore → TaskStore
save_if_any writable [] s = s
save_if_any writable (t ∷ ts) s = save_locked writable s

unfoldable pub pop_due : Bool → Datetime → TaskStore → Try (List Task) × TaskStore
unfolding pop_each save_locked
pop_due writable now s =
    let due = due_tasks now s in
    let (fired, tasks) = pop_each due s.tasks in
    let popped = record s { tasks = tasks } in
    elim fired [
      | raised ↦ (raised, popped)
      | returned ts ↦ (returned ts, save_if_any writable due popped)
    ]
