-- ===== src/Tasks.antt =====
-- `src/kai/agent/scheduler.py`: a scheduled task, when it fires next, and how it is persisted.
pub mod Repeat
pub mod Next
pub mod Persistence
pub mod Store
pub mod PopDue
pub mod Returns
pub mod Listing
pub mod Invariant
pub mod Scheduler
pub mod Tools
pub mod Samples
use Prim.Native.Nat.{max}
use meetkai.Common.{
  ℕ, ◌+◌, ◌*◌, ◌/◌, String, Bool, ◌&&◌, Option, none, some, List, [], ◌∷◌, leb, ltb, ◌==◌,
  if◌then◌else◌,
}
use meetkai.Common.Try.{Try, returned, raised, ◌>>=◌}
use meetkai.Calendar.{Datetime, instant, add_days}
use meetkai.Recurrence.{advance_weekly, advance_monthly}
use Repeat.{RepeatKind, daily, weekly, monthly, coerce_repeat}

-- A negative `interval` or `count` acts as 0 wherever the code reads it.
pub record Task : Type 0 where
  pub id : String
  pub chat_id : String
  pub goal : String
  pub due_at : Datetime
  pub owner_id : String
  pub created_at : Datetime
  pub repeat : RepeatKind
  pub interval : ℕ
  pub weekdays : Option (List ℕ)
  pub until : Option Datetime
  pub count : Option ℕ
  pub occurrences : ℕ

-- The chain of tests on `task.repeat` in `advance_recurrence`.
unfoldable pub advance_by : RepeatKind → Datetime → ℕ → Option (List ℕ) → Try Datetime
advance_by daily d interval weekdays = add_days interval d
advance_by weekly d interval weekdays = advance_weekly d interval weekdays
advance_by monthly d interval weekdays = advance_monthly d interval
advance_by RepeatKind.none d interval weekdays = returned d

unfoldable pub advance_recurrence : Task → Try Datetime
unfolding advance_by
advance_recurrence t = advance_by t.repeat t.due_at (max 1 t.interval) t.weekdays

-- `task.until and next_dt > task.until`
abbrev pub past_until : Option Datetime → Datetime → Bool
past_until none d = Bool.false
past_until (some u) d = ltb (instant u) (instant d)

-- `task.count is not None and task.occurrences + 1 >= task.count`
abbrev pub count_reached : Option ℕ → ℕ → Bool
count_reached none n = Bool.false
count_reached (some c) n = leb c (n + 1)

abbrev pub within_limits : Task → Datetime → Option Datetime
within_limits t d =
    if past_until t.until d
    then none
    else if count_reached t.count t.occurrences
    then none
    else some d

abbrev pub is_recurring : RepeatKind → Bool
is_recurring RepeatKind.none = Bool.false
is_recurring _ = Bool.true

unfoldable pub compute_next_due : Task → Try (Option Datetime)
unfolding advance_recurrence
compute_next_due t =
    if is_recurring t.repeat
    then (do d ← advance_recurrence t; returned (within_limits t d))
    else returned none

-- `to_iso`: the text has no microseconds, so it stands here for the whole second that it names.
unfoldable pub to_iso : Datetime → Datetime
to_iso d = record d { time = d.time / 1000000 * 1000000 }

-- What `to_dict` writes: `repeat` is a text again, and an absent `until` is null.
pub record TaskDict : Type 0 where
  pub id : String
  pub chat_id : String
  pub goal : String
  pub due_at : Datetime
  pub owner_id : String
  pub created_at : Datetime
  pub repeat : String
  pub interval : ℕ
  pub weekdays : Option (List ℕ)
  pub until : Option Datetime
  pub count : Option ℕ
  pub occurrences : ℕ

abbrev pub repeat_text : RepeatKind → String
repeat_text RepeatKind.none = "none"
repeat_text daily = "daily"
repeat_text weekly = "weekly"
repeat_text monthly = "monthly"

abbrev pub map_time : (Datetime → Datetime) → Option Datetime → Option Datetime
map_time f none = none
map_time f (some d) = some (f d)

unfoldable pub to_dict : Task → TaskDict
unfolding to_iso
to_dict t = record {
  id = t.id;
  chat_id = t.chat_id;
  goal = t.goal;
  due_at = to_iso t.due_at;
  owner_id = t.owner_id;
  created_at = to_iso t.created_at;
  repeat = repeat_text t.repeat;
  interval = t.interval;
  weekdays = t.weekdays;
  until = map_time to_iso t.until;
  count = t.count;
  occurrences = t.occurrences;
}

-- `tuple(weekdays_data) if weekdays_data else None`
abbrev pub truthy_weekdays : Option (List ℕ) → Option (List ℕ)
truthy_weekdays none = none
truthy_weekdays (some []) = none
truthy_weekdays (some (w ∷ ws)) = some (w ∷ ws)

-- `int(data["count"]) if data.get("count") else None`
abbrev pub truthy_count : Option ℕ → Option ℕ
truthy_count none = none
truthy_count (some c) = if c == 0 then none else some c

-- `from_dict` on a dict that has every key, as `to_dict` writes it.
unfoldable pub from_dict : TaskDict → Task
unfolding coerce_repeat
from_dict item = record {
  id = item.id;
  chat_id = item.chat_id;
  goal = item.goal;
  due_at = item.due_at;
  owner_id = item.owner_id;
  created_at = item.created_at;
  repeat = coerce_repeat (some item.repeat);
  interval = item.interval;
  weekdays = truthy_weekdays item.weekdays;
  until = item.until;
  count = truthy_count item.count;
  occurrences = item.occurrences;
}
