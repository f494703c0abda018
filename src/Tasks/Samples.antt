-- ===== src/Tasks/Samples.antt =====
-- Examples of the store, the tools and the scheduler: a daily task of chat "a" that is due on Monday,
-- 1 June 2026, and a task of chat "b" for Wednesday.
use meetkai.Common.{
  All, ℕ, ◌≤◌, ◌≡◌, refl, String, true, false, Option, none, some, List, [], ◌∷◌, arith, select,
}
use meetkai.Common.Dict.{Dict, lookup, values}
use meetkai.Common.Try.{returned}
use meetkai.Calendar.{Datetime, IsDatetime, days_in_month}
use meetkai.Tasks.{Task, compute_next_due}
use meetkai.Tasks.Repeat.{RepeatKind, daily}
use meetkai.Tasks.Next.{IsNextDue, compute_next_due-IsNextDue}
use meetkai.Tasks.Store.{
  TaskStore, pop_due, is_due, add, cancel, list_for, save_locked, load, matches,
}
use meetkai.Tasks.Returns.{IsNear, Returns, pop_due-Returns}
use meetkai.Tasks.PopDue.{after_poll, pop_due_lem}
use meetkai.Tasks.Invariant.{IsConsistent}

abbrev pub at_noon : ℕ → Datetime
at_noon day = record { year = 2026; month = 6; day = day; time = 43200000000 }

abbrev pub report : Task
report = record {
  id = "t1";
  chat_id = "a";
  goal = "send the report";
  due_at = at_noon 1;
  owner_id = "o";
  created_at = at_noon 1;
  repeat = daily;
  interval = 1;
  weekdays = none;
  until = none;
  count = some 3;
  occurrences = 0;
}

abbrev pub reminder : Task
reminder = record report {
  id = "t2";
  chat_id = "b";
  goal = "call the office";
  due_at = at_noon 3;
  repeat = RepeatKind.none;
  count = none;
}

abbrev next_report : Task
next_report = record report { due_at = at_noon 2; occurrences = 1 }

abbrev pub tasks : Dict Task
tasks = ("t1", report) ∷ ("t2", reminder) ∷ []

abbrev pub store : TaskStore
store = record { has_path = true; tasks = tasks; file = none }

pub june-IsDatetime : (day : ℕ) → 1 ≤ day → day ≤ 30 → IsDatetime (at_noon day)
unfolding days_in_month
june-IsDatetime day pos cap = record {
  year_pos = omega arith;
  month_pos = omega arith;
  month_cap = omega arith;
  day_pos = pos;
  day_cap = cap;
  time_cap = omega arith;
}

pub tasks-IsConsistent : IsConsistent tasks
unfolding lookup values
tasks-IsConsistent = record {
  keyed = (refl, refl, (refl, refl, tt));
  sound = (
    record { due = june-IsDatetime 1 (omega arith) (omega arith); below = omega arith },
    (record { due = june-IsDatetime 3 (omega arith) (omega arith); below = tt }, tt),
  );
}

next-report : compute_next_due report ≡ returned (some (at_noon 2))
unfolding compute_next_due meetkai.Calendar.add_days meetkai.Calendar.days_later
    meetkai.Calendar.next_day days_in_month
next-report = refl

polled : (pop_due true (at_noon 1) store).0 ≡ returned (report ∷ [])
unfolding pop_due meetkai.Tasks.Store.due_tasks values is_due meetkai.Calendar.instant
    meetkai.Calendar.ordinal meetkai.Calendar.days_before_year meetkai.Calendar.days_before_month
    days_in_month meetkai.Calendar.is_leap compute_next_due meetkai.Calendar.add_days
    meetkai.Calendar.days_later meetkai.Calendar.next_day
polled = refl

polled_tasks :
    (pop_due true (at_noon 1) store).1.tasks ≡ ("t2", reminder) ∷ ("t1", next_report) ∷ []
unfolding pop_due meetkai.Tasks.Store.due_tasks values is_due meetkai.Calendar.instant
    meetkai.Calendar.ordinal meetkai.Calendar.days_before_year meetkai.Calendar.days_before_month
    days_in_month meetkai.Calendar.is_leap compute_next_due meetkai.Calendar.add_days
    meetkai.Calendar.days_later meetkai.Calendar.next_day meetkai.Common.Dict.put
    meetkai.Common.Dict.remove
polled_tasks = refl

compute_next_due-IsNextDue_example : IsNextDue report (at_noon 2)
compute_next_due-IsNextDue_example =
    compute_next_due-IsNextDue report (at_noon 2) (june-IsDatetime 1 (omega arith) (omega arith))
      next-report

pop_due_lem_example :
    (report ∷ [] ≡ select (is_due (at_noon 1)) (values tasks))
    × ((k : String)
        → lookup k (pop_due true (at_noon 1) store).1.tasks
          ≡ after_poll (at_noon 1) (lookup k tasks))
pop_due_lem_example =
    pop_due_lem true (at_noon 1) store (report ∷ []) tasks-IsConsistent.keyed polled

tasks-IsNear : All IsNear (values tasks)
unfolding values
tasks-IsNear = (
  record { due = june-IsDatetime 1 (omega arith) (omega arith); room = λ again. omega arith },
  (record { due = june-IsDatetime 3 (omega arith) (omega arith); room = λ again. omega arith }, tt),
)

pop_due-Returns_example : Returns (pop_due false (at_noon 3) store).0
pop_due-Returns_example = pop_due-Returns false (at_noon 3) store tasks-IsNear
