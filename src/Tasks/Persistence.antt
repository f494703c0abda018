-- ===== src/Tasks/Persistence.antt =====
-- What the file keeps of a task, and what a restart reads back.
use meetkai.Common.{◌≡◌, refl, ap, String, true, false, none, some, [], arith}
use meetkai.Common.Persisted.{Codec, after_restart, lookup-load_items}
use meetkai.Common.Dict.{lookup}
use meetkai.Tasks.Repeat.{RepeatKind, daily, weekly, monthly, coerce_repeat}
use meetkai.Tasks.{
  Task, TaskDict, to_dict, from_dict, to_iso, map_time, truthy_count, truthy_weekdays, repeat_text,
  count_reached,
}
use meetkai.Tasks.Store.{TaskStore, load, load_tasks, save_locked}
use meetkai.Tasks.PopDue.{IsKeyed}

coerce_repeat-text : (kind : RepeatKind) → coerce_repeat (some (repeat_text kind)) ≡ kind
unfolding coerce_repeat
coerce_repeat-text RepeatKind.none = refl
coerce_repeat-text daily = refl
coerce_repeat-text weekly = refl
coerce_repeat-text monthly = refl

-- A task as the file keeps it: times in whole seconds, no empty weekday list, no count of 0.
unfoldable pub reloaded : Task → Task
reloaded t = record t {
  due_at = to_iso t.due_at;
  created_at = to_iso t.created_at;
  until = map_time to_iso t.until;
  weekdays = truthy_weekdays t.weekdays;
  count = truthy_count t.count;
}

-- Reading back what `to_dict` wrote gives the task, but for the parts of a second, an empty weekday
-- list and a count of 0, which are lost.
pub from_dict-to_dict : (t : Task) → from_dict (to_dict t) ≡ reloaded t
unfolding from_dict to_dict reloaded
from_dict-to_dict t =
    ap (λ kind. record (reloaded t) { repeat = kind }) (coerce_repeat-text t.repeat)

-- A task whose count is 0 has reached its limit, and is unlimited after a restart.
pub reload-count_zero :
    (t : Task)
    → t.count ≡ some 0
    → (count_reached t.count t.occurrences ≡ true)
      × (count_reached (reloaded t).count (reloaded t).occurrences ≡ false)
unfolding reloaded
reload-count_zero t e = rw e (ground arith, refl)

pub id-reloaded : (t : Task) → (reloaded t).id ≡ t.id
unfolding reloaded
id-reloaded t = refl

unfoldable pub task_codec : Codec Task TaskDict
task_codec = record {
  id = λ t. t.id;
  to_dict = to_dict;
  from_dict = from_dict;
  reloaded = reloaded;
  from_dict-to_dict = from_dict-to_dict;
  id-reloaded = id-reloaded;
}

-- After a save that succeeds, a new store at the same path loads each task as it is read back, and
-- no other.
pub load-save_locked :
    (s : TaskStore) (k : String)
    → s.has_path ≡ true
    → IsKeyed s.tasks
    → lookup k
        (load (record { has_path = true; tasks = []; file = (save_locked true s).file })).tasks
      ≡ after_restart task_codec (lookup k s.tasks) none
unfolding load save_locked lookup load_tasks task_codec
load-save_locked s k path keyed = rw path (lookup-load_items task_codec k s.tasks [] keyed)
