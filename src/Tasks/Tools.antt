-- ===== src/Tasks/Tools.antt =====
-- The tools that `build_task_tools` of `src/kai/agent/scheduler.py` gives to the model:
-- `schedule_task`, `list_tasks` and `cancel_task`, with the re-entrancy guard `EXECUTING_TASK`.
-- The rendered reply texts are values of `Reply`.
pub mod Schedule
pub mod Scope
pub mod Samples
use meetkai.Common.{
  ℕ, ◌+◌, ◌-◌, ◌*◌, String, Bool, true, false, not, ◌&&◌, ◌||◌, Option, none, some, List, [], ◌∷◌,
  map, select, leb, ltb, ◌==◌, if◌then◌else◌,
}
use meetkai.Common.Text.{is_empty, char_count, strip, split_on, lower_codes, same_codes}
use meetkai.Common.Try.{Try, returned, raised}
use meetkai.Calendar.{Datetime, instant, day_length}
use meetkai.Tasks.{Task}
use meetkai.Tasks.Repeat.{RepeatKind}
use meetkai.Tasks.Store.{TaskStore, add, cancel, list_for}

-- What a call reads from outside: two clock readings (the second by the default of `created_at`),
-- the current chat, `parse_when` in the chat's time zone (`raised` is its ValueError), the optional
-- clarity judge, a fresh id, and whether the store's file can be written.
pub record Surroundings : Type 0 where
  pub now : Datetime
  pub created_at : Datetime
  pub chat_id : String
  pub owner_id : String
  pub parse_when : String → Try Datetime
  pub clarity_judge : Option (String → Try Bool)
  pub new_id : String
  pub writable : Bool

-- `executing` is the value of EXECUTING_TASK.
pub record World : Type 0 where
  pub executing : Bool
  pub store : TaskStore

pub record Request : Type 0 where
  pub when : String
  pub goal : String
  pub repeat : RepeatKind
  pub weekdays : Option String
  pub until : Option String
  pub count : Option ℕ

pub data Refusal : Type 0 where
  recursing goal_too_short bad_when in_the_past too_far unclear bad_until : Refusal

pub data Reply : Type 0 where
  scheduled : Task → Reply
  refused : Refusal → Reply

abbrev pub min_goal_chars : ℕ
min_goal_chars = 8

-- `timedelta(days=365 * 5)` in microseconds
abbrev pub max_future : ℕ
max_future = 365 * 5 * day_length

-- `day_map.get(part)`
unfoldable pub day_number : String → Option ℕ
day_number part =
    let name = lower_codes part in
    if same_codes name (lower_codes "mon")
    then some 0
    else if same_codes name (lower_codes "tue")
    then some 1
    else if same_codes name (lower_codes "wed")
    then some 2
    else if same_codes name (lower_codes "thu")
    then some 3
    else if same_codes name (lower_codes "fri")
    then some 4
    else if same_codes name (lower_codes "sat")
    then some 5
    else if same_codes name (lower_codes "sun")
    then some 6
    else none

unfoldable pub day_numbers : List String → List ℕ
unfolding day_number strip
day_numbers [] = []
day_numbers (part ∷ parts) =
    let rest = day_numbers parts in
    elim (day_number (strip part)) [ none ↦ rest | some n ↦ n ∷ rest ]

-- `sorted(days)`
unfoldable pub insert_day : ℕ → List ℕ → List ℕ
insert_day a [] = a ∷ []
insert_day a (b ∷ bs) = if leb a b then a ∷ b ∷ bs else b ∷ insert_day a bs

unfoldable pub sort_days : List ℕ → List ℕ
unfolding insert_day
sort_days [] = []
sort_days (a ∷ more) = insert_day a (sort_days more)

abbrev tuple_or_none : List ℕ → Option (List ℕ)
tuple_or_none [] = none
tuple_or_none (d ∷ ds) = some (sort_days (d ∷ ds))

-- Read for the weekly kind only; None if no part names a day.
unfoldable pub weekdays_of : RepeatKind → Option String → Option (List ℕ)
unfolding day_numbers split_on sort_days
weekdays_of RepeatKind.weekly (some text) = tuple_or_none (day_numbers (split_on b',' text))
weekdays_of _ _ = none

-- `until` is read if it is a text that is not empty.
unfoldable pub until_of : (String → Try Datetime) → Option String → Try (Option Datetime)
until_of parse none = returned none
until_of parse (some text) =
    if is_empty text
    then returned none
    else elim (parse text) [ raised ↦ raised | returned d ↦ returned (some d) ]

-- The judge's verdict; none configured means clear, and a judge that raises means unclear.
unfoldable pub judged_clear : Option (String → Try Bool) → String → Bool
judged_clear none goal = true
judged_clear (some judge) goal = elim (judge goal) [ raised ↦ false | returned clear ↦ clear ]

-- `TaskScheduler.schedule` builds the task and adds it to the store.
unfoldable pub new_task : Surroundings → Request → String → Datetime → Option Datetime → Task
unfolding weekdays_of
new_task env r goal due until = record {
  id = env.new_id;
  chat_id = env.chat_id;
  goal = goal;
  due_at = due;
  owner_id = env.owner_id;
  created_at = env.created_at;
  repeat = r.repeat;
  interval = 1;
  weekdays = weekdays_of r.repeat r.weekdays;
  until = until;
  count = r.count;
  occurrences = 0;
}

unfoldable pub schedule : Surroundings → Task → World → Reply × World
schedule env t w = (scheduled t, record w { store = add env.writable t w.store })

-- The tests on the due time, the judge and `until`.
unfoldable pub schedule_at : Surroundings → Request → String → Datetime → World → Reply × World
unfolding judged_clear until_of schedule
schedule_at env r goal due w =
    if leb (instant due) (instant env.now)
    then (refused in_the_past, w)
    else if ltb max_future (instant due - instant env.now)
    then (refused too_far, w)
    else if not (judged_clear env.clarity_judge goal)
    then (refused unclear, w)
    else elim (until_of env.parse_when r.until) [
      | raised ↦ (refused bad_until, w)
      | returned until ↦ schedule env (new_task env r goal due until) w
    ]

unfoldable pub schedule_task : Surroundings → Request → World → Reply × World
unfolding schedule_at
schedule_task env r w =
    let goal = strip r.goal in
    if w.executing
    then (refused recursing, w)
    else if ltb (char_count goal) min_goal_chars
    then (refused goal_too_short, w)
    else elim (env.parse_when r.when) [
      | raised ↦ (refused bad_when, w)
      | returned due ↦ schedule_at env r goal due w
    ]

pub record Listed : Type 0 where
  pub task : Task
  pub overdue : Bool

unfoldable pub list_tasks : Surroundings → Bool → World → List Listed
unfolding list_for
list_tasks env include_past w =
    map (λ t. record { task = t; overdue = leb (instant t.due_at) (instant env.now) })
      (select (λ t. include_past || ltb (instant env.now) (instant t.due_at))
        (list_for (some env.chat_id) none w.store))

unfoldable pub cancel_task : Surroundings → String → World → Bool × World
cancel_task env task_id w =
    let (ok, store) = cancel env.writable task_id env.chat_id w.store in
    (ok, record w { store = store })

-- One call of a task tool by the model.
pub data ToolCall : Type 0 where
  schedule_call : Request → ToolCall
  list_call : Bool → ToolCall
  cancel_call : String → ToolCall

unfoldable pub call : Surroundings → ToolCall → World → World
call env (schedule_call r) w = (schedule_task env r w).1
call env (list_call include_past) w = w
call env (cancel_call task_id) w = (cancel_task env task_id w).1

-- The calls of one turn, each with what it reads from outside.
unfoldable pub run_calls : List (Surroundings × ToolCall) → World → World
run_calls [] w = w
run_calls ((env, c) ∷ cs) w = run_calls cs (call env c w)
