-- ===== src/Tasks/Tools/Scope.antt =====
-- What the task tools can reach.
use meetkai.Common.{
  ◌≡◌, ◌≢◌, refl, ap, inl, inr, ◌⊎◌, String, Bool, true, false, ◌&&◌, none, some, List, [], ◌∷◌,
  arith, Bool-cases, Option-cases, if◌then◌else◌, str_eq, eq_iff,
}
use meetkai.Common.Dict.{Dict, lookup, put, remove, lookup-put, lookup-remove}
use meetkai.Tasks.{Task}
use meetkai.Tasks.Store.{TaskStore, add, cancel}
use meetkai.Tasks.Invariant.{tasks-save_locked}
use meetkai.Tasks.Tools.{
  Surroundings, World, Request, Reply, Refusal, ToolCall, schedule_call, list_call, cancel_call,
  scheduled, refused, schedule_task, cancel_task, call, run_calls, new_task,
}
use meetkai.Tasks.Tools.Schedule.{schedule_task-scheduled, schedule_task-refused}

-- `cancel` answers True for a task of that chat alone, and removes just that task.
pub cancel_lem :
    (writable : Bool) (task_id chat_id : String) (s : TaskStore) (t : Task)
    → lookup task_id s.tasks ≡ some t
    → ((cancel writable task_id chat_id s).0 ≡ str_eq t.chat_id chat_id)
      × ((k : String)
          → lookup k (cancel writable task_id chat_id s).1.tasks
            ≡ (if str_eq t.chat_id chat_id && str_eq task_id k then none else lookup k s.tasks))
unfolding cancel
cancel_lem writable task_id chat_id s t found = elim (Bool-cases (str_eq t.chat_id chat_id)) [
  | inl ours ↦
      rw (found, ours, cancel)
        (
          refl,
          λ k.
              rw (tasks-save_locked writable (record s { tasks = remove task_id s.tasks }))
                (lookup-remove task_id k s.tasks),
        )
  | inr theirs ↦ rw (found, theirs, cancel) (refl, λ k. refl)
]

-- An unknown id is refused, and nothing changes.
pub cancel_unknown :
    (writable : Bool) (task_id chat_id : String) (s : TaskStore)
    → lookup task_id s.tasks ≡ none
    → cancel writable task_id chat_id s ≡ (false, s)
unfolding cancel
cancel_unknown writable task_id chat_id s missing = rw (missing, cancel)

-- Every task of the second table is in the first.
abbrev pub Within : Dict Task → Dict Task → Type 0
Within old new = (k : String) (t : Task) → lookup k new ≡ some t → lookup k old ≡ some t

Within-cancel :
    (writable : Bool) (task_id chat_id : String) (s : TaskStore)
    → Within s.tasks (cancel writable task_id chat_id s).1.tasks
Within-cancel writable task_id chat_id s k t h = elim (Option-cases (lookup task_id s.tasks)) [
  | inl missing ↦ rw (cancel_unknown writable task_id chat_id s missing) at h
  | inr (u, found) ↦ ground (arith, (cancel_lem writable task_id chat_id s u found).1 k)
]

-- While a fired task executes, no tool call adds or changes a task, and the flag stays set.
call-executing :
    (env : Surroundings) (c : ToolCall) (w : World)
    → w.executing ≡ true
    → Within w.store.tasks (call env c w).store.tasks × ((call env c w).executing ≡ true)
unfolding call schedule_task cancel_task
call-executing env (schedule_call r) w on = rw on ((λ k t h. h), refl)
call-executing env (list_call past) w on = ((λ k t h. h), on)
call-executing env (cancel_call task_id) w on =
    (Within-cancel env.writable task_id env.chat_id w.store, on)

-- Whatever tools a fired task calls, however often, it creates no task and changes none: each task
-- that the store holds afterwards was there before, the same.
pub run_calls-Within :
    (cs : List (Surroundings × ToolCall)) (w : World)
    → w.executing ≡ true
    → Within w.store.tasks (run_calls cs w).store.tasks × ((run_calls cs w).executing ≡ true)
unfolding run_calls
run_calls-Within [] w on = ((λ k t h. h), on)
run_calls-Within ((env, c) ∷ cs) w on =
    let (kept, still) = call-executing env c w on in
    let (later, end) = run_calls-Within cs (call env c w) still in
    ((λ k t h. kept k t (later k t h)), end)

cancel-other_chat :
    (writable : Bool) (task_id chat_id : String) (s : TaskStore) (k : String) (t : Task)
    → lookup k s.tasks ≡ some t
    → t.chat_id ≢ chat_id
    → lookup k (cancel writable task_id chat_id s).1.tasks ≡ some t
cancel-other_chat writable task_id chat_id s k t here other =
    elim (Option-cases (lookup task_id s.tasks)) [
      | inl missing ↦ rw (cancel_unknown writable task_id chat_id s missing) here
      | inr (u, found) ↦ ground (
        arith,
        (cancel_lem writable task_id chat_id s u found).1 k,
        eq_iff u.chat_id chat_id,
        eq_iff task_id k,
      )
    ]

Reply-cases :
    (reply : Reply) → ((t : Task) × (reply ≡ scheduled t)) ⊎ ((x : Refusal) × (reply ≡ refused x))
Reply-cases (scheduled t) = inl (t, refl)
Reply-cases (refused x) = inr (x, refl)

add-other_id :
    (writable : Bool) (u : Task) (s : TaskStore) (k : String) (t : Task)
    → lookup u.id s.tasks ≡ none
    → lookup k s.tasks ≡ some t
    → lookup k (add writable u s).tasks ≡ some t
unfolding add
add-other_id writable u s k t fresh here =
    rw (tasks-save_locked writable (record s { tasks = put u.id u s.tasks }))
      (ground (arith, lookup-put u.id k u s.tasks, eq_iff u.id k))

schedule-other_chat :
    (env : Surroundings) (r : Request) (w : World) (k : String) (t : Task)
    → lookup env.new_id w.store.tasks ≡ none
    → lookup k w.store.tasks ≡ some t
    → lookup k (schedule_task env r w).1.store.tasks ≡ some t
unfolding new_task
schedule-other_chat env r w k t fresh here = elim (Reply-cases (schedule_task env r w).0) [
  | inr (x, no_reply) ↦ rw (schedule_task-refused env r w x no_reply) here
  | inl (u, reply) ↦
      let (accepted, stored) = schedule_task-scheduled env r w u reply in
      let own_id : u.id ≡ env.new_id = ap (λ (x : Task). x.id) accepted.built in
      rw stored (add-other_id env.writable u w.store k t (rw own_id fresh) here)
]

-- A call of a tool leaves each task of another chat as it is, if the id that it would give a new
-- task is not in use.
pub call-other_chat :
    (env : Surroundings) (c : ToolCall) (w : World) (k : String) (t : Task)
    → lookup env.new_id w.store.tasks ≡ none
    → lookup k w.store.tasks ≡ some t
    → t.chat_id ≢ env.chat_id
    → lookup k (call env c w).store.tasks ≡ some t
unfolding call cancel_task
call-other_chat env (list_call past) w k t fresh here other = here
call-other_chat env (cancel_call task_id) w k t fresh here other =
    cancel-other_chat env.writable task_id env.chat_id w.store k t here other
call-other_chat env (schedule_call r) w k t fresh here other =
    schedule-other_chat env r w k t fresh here
