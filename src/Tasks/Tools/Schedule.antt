-- ===== src/Tasks/Tools/Schedule.antt =====
-- Which requests `schedule_task` accepts.
use meetkai.Common.{◌+◌, ◌≤◌, ◌<◌, ◌≡◌, ap, ◌∙◌, inl, inr, String, true, false, Option, arith}
use meetkai.Common.Text.{char_count, strip}
use meetkai.Common.Try.{returned, Try-cases}
use meetkai.Calendar.{Datetime, instant}
use meetkai.Tasks.{Task}
use meetkai.Tasks.Store.{add}
use meetkai.Tasks.Tools.{
  Surroundings, World, Request, Refusal, scheduled, refused, schedule_task, schedule_at, schedule,
  new_task, judged_clear, until_of, min_goal_chars, max_future,
}

-- All that has to hold for a request to become a task, with the due time and the end that it gets.
pub record IsAccepted (env : Surroundings) (r : Request) (w : World) (t : Task) : Type 0 where
  pub not_executing : w.executing ≡ false
  pub goal_long : min_goal_chars ≤ char_count (strip r.goal)
  pub due_parsed : env.parse_when r.when ≡ returned t.due_at
  pub future : instant env.now < instant t.due_at
  pub near : instant t.due_at ≤ instant env.now + max_future
  pub clear : judged_clear env.clarity_judge (strip r.goal) ≡ true
  pub until_parsed : until_of env.parse_when r.until ≡ returned t.until
  pub built : t ≡ new_task env r (strip r.goal) t.due_at t.until

-- `schedule_at` succeeds by the tests that it makes.
record PassedTests (env : Surroundings) (r : Request) (goal : String) (due : Datetime) (t : Task)
    : Type 0 where
  until : Option Datetime
  until_parsed : until_of env.parse_when r.until ≡ returned until
  future : instant env.now < instant due
  near : instant due ≤ instant env.now + max_future
  clear : judged_clear env.clarity_judge goal ≡ true
  built : t ≡ new_task env r goal due until

module _ (env : Surroundings) (r : Request) (w : World) where
  schedule_at-PassedTests :
      (goal : String) (due : Datetime) (t : Task)
      → (schedule_at env r goal due w).0 ≡ scheduled t
      → PassedTests env r goal due t
  unfolding schedule_at schedule
  schedule_at-PassedTests goal due t h = elim (Try-cases (until_of env.parse_when r.until)) [
    | inl bad ↦ absurd (ground (arith, bad))
    | inr (until, e) ↦ record {
      until = until;
      until_parsed = e;
      future = ground (arith, e);
      near = ground (arith, e);
      clear = ground (arith, e);
      built = ground (arith, e);
    }
  ]

  schedule_at-stores :
      (goal : String) (due : Datetime) (t : Task)
      → (schedule_at env r goal due w).0 ≡ scheduled t
      → (schedule_at env r goal due w).1 ≡ record w { store = add env.writable t w.store }
  unfolding schedule_at schedule
  schedule_at-stores goal due t h = ground arith

  reaches_schedule_at :
      (t : Task)
      → (schedule_task env r w).0 ≡ scheduled t
      → (due : Datetime) × (env.parse_when r.when ≡ returned due)
        × (w.executing ≡ false)
        × (min_goal_chars ≤ char_count (strip r.goal))
        × (schedule_task env r w ≡ schedule_at env r (strip r.goal) due w)
  unfolding schedule_task
  reaches_schedule_at t h = elim (Try-cases (env.parse_when r.when)) [
    | inl bad ↦ absurd (ground (arith, bad))
    | inr (due, e) ↦ (due, e, ground (arith, e), ground (arith, e), ground (arith, e))
  ]

  -- An accepted request has passed every test: no task is executing, the goal has 8 characters or
  -- more, the due time is what `when` names, in the future and at most 5 years ahead, the judge finds
  -- the goal clear, `until` can be read. The task is built from the request, and adding it to the
  -- store is the only change.
  pub schedule_task-scheduled :
      (t : Task)
      → (schedule_task env r w).0 ≡ scheduled t
      → IsAccepted env r w t
        × ((schedule_task env r w).1 ≡ record w { store = add env.writable t w.store })
  schedule_task-scheduled t h =
      let (due, parsed, idle, long, same) = reaches_schedule_at t h in
      let goal = strip r.goal in
      let at : (schedule_at env r goal due w).0 ≡ scheduled t = rw (← same) h in
      let passed = schedule_at-PassedTests goal due t at in
      let due_same : due ≡ t.due_at = unfold new_task in rw passed.built in
      let until_same : passed.until ≡ t.until = unfold new_task in rw passed.built in
      (
        record {
          not_executing = idle;
          goal_long = long;
          due_parsed = rw (← due_same) parsed;
          future = rw (← due_same) passed.future;
          near = rw (← due_same) passed.near;
          clear = passed.clear;
          until_parsed = rw (← until_same) passed.until_parsed;
          built =
              passed.built
              ∙ ap (λ x. new_task env r goal x passed.until) due_same
              ∙ ap (λ x. new_task env r goal t.due_at x) until_same;
        },
        rw same (schedule_at-stores goal due t at),
      )

  -- A refused request changes nothing.
  pub schedule_task-refused :
      (x : Refusal) → (schedule_task env r w).0 ≡ refused x → (schedule_task env r w).1 ≡ w
  unfolding schedule_task schedule
  schedule_task-refused x h = ground arith
