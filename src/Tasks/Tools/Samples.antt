-- ===== src/Tasks/Tools/Samples.antt =====
-- Examples of the tools, of the scheduler's tick and of what a restart reads.
use meetkai.Common.{
  ℕ, ◌≤◌, ◌≡◌, ◌≢◌, refl, eq_iff, String, Bool, true, false, ◌&&◌, Option, none, some, List, [],
  ◌∷◌, arith, select, str_eq, if◌then◌else◌,
}
use meetkai.Common.Dict.{Dict, lookup, values}
use meetkai.Common.Try.{Try, returned, raised}
use meetkai.Calendar.{Datetime}
use meetkai.Tasks.{Task, from_dict, to_dict, count_reached}
use meetkai.Tasks.Repeat.{weekly}
use meetkai.Tasks.Store.{TaskStore, add, cancel, list_for, matches}
use meetkai.Tasks.PopDue.{after_poll}
use meetkai.Tasks.Scheduler.{tick, turn_of, ExecuteCallback, executing-tick, tick-no_new_tasks}
use meetkai.Tasks.Tools.{
  Surroundings, World, Request, Reply, Refusal, ToolCall, schedule_call, cancel_call, scheduled,
  refused, recursing, schedule_task, call, run_calls, new_task,
}
use meetkai.Tasks.Tools.Schedule.{IsAccepted, schedule_task-scheduled}
use meetkai.Tasks.Tools.Scope.{Within, run_calls-Within}
use meetkai.Tasks.Samples.{at_noon, report, reminder, store, tasks, tasks-IsConsistent}

-- Chat "a" on 1 June at noon; every text for a time is read as 5 June at noon.
abbrev env : Surroundings
env = record {
  now = at_noon 1;
  created_at = at_noon 1;
  chat_id = "a";
  owner_id = "o";
  parse_when = λ text. returned (at_noon 5);
  clarity_judge = some (λ goal. returned true);
  new_id = "t3";
  writable = true;
}

abbrev request : Request
request = record {
  when = "2026-06-05 12:00";
  goal = " water the plants ";
  repeat = weekly;
  weekdays = some "Fri, mon";
  until = none;
  count = none;
}

abbrev plants : Task
plants = record {
  id = "t3";
  chat_id = "a";
  goal = "water the plants";
  due_at = at_noon 5;
  owner_id = "o";
  created_at = at_noon 1;
  repeat = weekly;
  interval = 1;
  weekdays = some (0 ∷ 4 ∷ []);
  until = none;
  count = none;
  occurrences = 0;
}

abbrev idle : World
idle = record { executing = false; store = store }

abbrev busy : World
busy = record { executing = true; store = store }

abbrev forgotten : Task
forgotten = record reminder { count = some 0 }

-- A fired task that tries to schedule another one and cancels its chat's other task.
abbrev greedy : Task → List (Surroundings × ToolCall)
greedy t = (env, schedule_call request) ∷ (env, cancel_call "t2") ∷ []

abbrev fails : Task → Try (Unit {0})
fails t = raised

accepted : (schedule_task env request idle).0 ≡ scheduled plants
unfolding schedule_task meetkai.Common.Text.strip meetkai.Calendar.instant meetkai.Calendar.ordinal
    meetkai.Calendar.days_before_year meetkai.Calendar.days_before_month
    meetkai.Calendar.days_in_month meetkai.Calendar.is_leap new_task
accepted = refl

busy-refused : (schedule_task env request busy).0 ≡ refused recursing
unfolding schedule_task
busy-refused = refl

ticked : (tick (turn_of greedy fails) true (at_noon 1) idle).0 ≡ returned tt
unfolding tick meetkai.Tasks.Store.pop_due meetkai.Tasks.Store.due_tasks values
    meetkai.Tasks.Store.is_due meetkai.Calendar.instant meetkai.Calendar.ordinal
    meetkai.Calendar.days_before_year meetkai.Calendar.days_before_month
    meetkai.Calendar.days_in_month meetkai.Calendar.is_leap meetkai.Tasks.compute_next_due
    meetkai.Calendar.add_days meetkai.Calendar.days_later meetkai.Calendar.next_day
ticked = refl

kept_reminder :
    lookup "t2" (tick (turn_of greedy fails) true (at_noon 1) idle).1.store.tasks ≡ some reminder
unfolding tick lookup meetkai.Tasks.Tools.cancel_task meetkai.Calendar.weekday
    meetkai.Common.Dict.put meetkai.Common.Dict.remove meetkai.Common.Text.is_space
    meetkai.Common.Text.lstrip meetkai.Common.Text.rstrip meetkai.Common.Text.split_on
    meetkai.Common.Text.strip meetkai.Tasks.Scheduler.execute_all
    meetkai.Tasks.Scheduler.execute_one add cancel meetkai.Tasks.Store.pop_each
    meetkai.Tasks.Store.save_locked schedule_task meetkai.Tasks.advance_by
    meetkai.Tasks.advance_recurrence to_dict meetkai.Tasks.to_iso meetkai.Tasks.Store.pop_due
    meetkai.Tasks.Store.due_tasks values meetkai.Tasks.Store.is_due meetkai.Calendar.instant
    meetkai.Calendar.ordinal meetkai.Calendar.days_before_year meetkai.Calendar.days_before_month
    meetkai.Calendar.days_in_month meetkai.Calendar.is_leap meetkai.Tasks.compute_next_due
    meetkai.Calendar.add_days meetkai.Calendar.days_later meetkai.Calendar.next_day run_calls call
kept_reminder = refl

other_chat : reminder.chat_id ≢ env.chat_id
other_chat h =
    let same : str_eq "b" "a" ≡ true = (eq_iff "b" "a").1 h in absurd (ground (arith, same))

schedule_task-scheduled_example :
    IsAccepted env request idle plants
    × ((schedule_task env request idle).1 ≡ record idle { store = add true plants store })
schedule_task-scheduled_example = schedule_task-scheduled env request idle plants accepted

run_calls-Within_example :
    Within tasks (run_calls (greedy report) busy).store.tasks
    × ((run_calls (greedy report) busy).executing ≡ true)
run_calls-Within_example = run_calls-Within (greedy report) busy refl

tick-no_new_tasks_example : after_poll (at_noon 1) (lookup "t2" tasks) ≡ some reminder
tick-no_new_tasks_example =
    tick-no_new_tasks greedy fails true (at_noon 1) idle "t2" reminder tasks-IsConsistent ticked
      kept_reminder
