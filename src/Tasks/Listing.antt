-- ===== src/Tasks/Listing.antt =====
-- `list_for`: its tasks and their order.
use mathlib.Core.List.{Perm}
use meetkai.Common.{String, ◌&&◌, Option, List, select}
use meetkai.Common.Dict.{values}
use meetkai.Common.Sort.{IsSortedBy, sort_by-IsSortedBy, select-IsSortedBy, select-sort_by}
use meetkai.Calendar.{instant}
use meetkai.Tasks.{Task}
use meetkai.Tasks.Store.{TaskStore, sort_by_due, list_for, matches}

-- No task comes after one that is due later.
abbrev pub IsByDue : List Task → Type 0
IsByDue = IsSortedBy (λ t. instant t.due_at)

-- The listing is ordered by due time, and holds the tasks of the store that match the given chat
-- and owner, each as often as the store does.
pub list_for_lem :
    (chat_id owner_id : Option String) (s : TaskStore)
    → IsByDue (list_for chat_id owner_id s)
      × Perm
          (list_for chat_id owner_id s)
          (select (λ t. matches chat_id t.chat_id && matches owner_id t.owner_id) (values s.tasks))
unfolding list_for sort_by_due
list_for_lem chat_id owner_id s = (
  select-IsSortedBy _ _ _ (sort_by-IsSortedBy _ (values s.tasks)),
  select-sort_by _ _ (values s.tasks),
)
