-- ===== src/Tasks/Scheduler.antt =====
-- `TaskScheduler` of `src/kai/agent/scheduler.py`: one poll of the store, and the execution of what
-- is due under the re-entrancy guard. The registered callback is an argument; its exceptions are
-- `raised`.
use meetkai.Common.{◌≡◌, refl, sym, ◌∙◌, inl, inr, Bool, true, some, List, [], ◌∷◌, String}
use meetkai.Common.Dict.{lookup}
use meetkai.Common.Try.{Try, returned, raised, Try-cases}
use meetkai.Calendar.{Datetime}
use meetkai.Tasks.{Task}
use meetkai.Tasks.Store.{pop_due}
use meetkai.Tasks.PopDue.{after_poll, pop_due_lem}
use meetkai.Tasks.Invariant.{IsConsistent}
use meetkai.Tasks.Tools.{World, Surroundings, ToolCall, run_calls}
use meetkai.Tasks.Tools.Scope.{Within, run_calls-Within}

abbrev pub ExecuteCallback : Type 0
ExecuteCallback = Task → World → Try (Unit {0}) × World

-- `EXECUTING_TASK` is set for the call, and reset to what it was; an exception is logged.
unfoldable pub execute_one : ExecuteCallback → Task → World → World
execute_one execute t w =
    let (done, w') = execute t (record w { executing = true }) in
    record w' { executing = w.executing }

unfoldable pub execute_all : ExecuteCallback → List Task → World → World
unfolding execute_one
execute_all execute [] w = w
execute_all execute (t ∷ ts) w = execute_all execute ts (execute_one execute t w)

unfoldable pub tick : ExecuteCallback → Bool → Datetime → World → Try (Unit {0}) × World
unfolding execute_all
tick execute writable now w =
    let (fired, store) = pop_due writable now w.store in
    let popped = record w { store = store } in
    elim fired [
      | raised ↦ (raised, popped)
      | returned due ↦ (returned tt, execute_all execute due popped)
    ]

-- The rounds of `run` until it is cancelled, each with its clock reading: a tick that raises is
-- logged, and the loop goes on.
unfoldable pub run : ExecuteCallback → List (Bool × Datetime) → World → World
unfolding tick
run execute [] w = w
run execute ((writable, now) ∷ polls) w = run execute polls (tick execute writable now w).1

-- A callback that lets the model call task tools, in any number and order, and may then raise.
abbrev pub turn_of :
    (Task → List (Surroundings × ToolCall)) → (Task → Try (Unit {0})) → ExecuteCallback
turn_of calls ending t w = (ending t, run_calls (calls t) w)

-- Executing leaves the guard as it was, whatever the callback does.
executing-execute_all :
    (execute : ExecuteCallback) (ts : List Task) (w : World)
    → (execute_all execute ts w).executing ≡ w.executing
unfolding execute_all execute_one
executing-execute_all execute [] w = refl
executing-execute_all execute (t ∷ ts) w =
    executing-execute_all execute ts (execute_one execute t w)

-- After a tick the guard is as before, also when a callback raises or the poll does.
pub executing-tick :
    (execute : ExecuteCallback) (writable : Bool) (now : Datetime) (w : World)
    → (tick execute writable now w).1.executing ≡ w.executing
unfolding tick
executing-tick execute writable now w = elim (Try-cases (pop_due writable now w.store).0) [
  | inl fails ↦ rw (fails, tick)
  | inr (due, e) ↦ rw (e, tick) (executing-execute_all execute due _)
]

execute_all-Within :
    (calls : Task → List (Surroundings × ToolCall)) (ending : Task → Try (Unit {0}))
    (ts : List Task) (w : World)
    → Within w.store.tasks (execute_all (turn_of calls ending) ts w).store.tasks
unfolding execute_all execute_one
execute_all-Within calls ending [] w k t h = h
execute_all-Within calls ending (u ∷ ts) w k t h =
    (run_calls-Within (calls u) (record w { executing = true }) refl).0 k t
      (execute_all-Within calls ending ts (execute_one (turn_of calls ending) u w) k t h)

-- A tick that does not raise creates no task but successors: what the store holds afterwards under
-- an id is what the poll left there of the task that had the id before, whatever tools the fired
-- tasks call and however they end.
pub tick-no_new_tasks :
    (calls : Task → List (Surroundings × ToolCall)) (ending : Task → Try (Unit {0}))
    (writable : Bool) (now : Datetime) (w : World) (k : String) (t : Task)
    → IsConsistent w.store.tasks
    → (tick (turn_of calls ending) writable now w).0 ≡ returned tt
    → lookup k (tick (turn_of calls ending) writable now w).1.store.tasks ≡ some t
    → after_poll now (lookup k w.store.tasks) ≡ some t
unfolding tick
tick-no_new_tasks calls ending writable now w k t ok done h =
    elim (Try-cases (pop_due writable now w.store).0) [
      | inl fails ↦ absurd (cc (rw (fails, tick) at done))
      | inr (due, e) ↦
          sym ((pop_due_lem writable now w.store due ok.keyed e).1 k)
          ∙ execute_all-Within calls ending due
              (record w { store = (pop_due writable now w.store).1 }) k t (rw (e, tick) at h)
    ]
