-- ===== src/Tasks/PopDue.antt =====
-- What one poll of the store does: which tasks fire, and what becomes of every task.
use meetkai.Common.{
  ◌≡◌, refl, sym, ap, ◌∙◌, inl, inr, String, Bool, ◌&&◌, Option, none, some, List, [], ◌∷◌, arith,
  select, Bool-cases, if◌then◌else◌, str_eq, eq_iff,
}
use meetkai.Common.Dict.{Dict, lookup, remove, values, lookup-put, lookup-remove}
use meetkai.Common.Persisted.{IsKeyedBy}
use meetkai.Common.Try.{Try, returned, raised, Try-cases}
use meetkai.Calendar.{Datetime}
use meetkai.Tasks.{Task, compute_next_due}
use meetkai.Tasks.Store.{
  TaskStore, is_due, due_tasks, pop_each, pop_due, put_next, rescheduled, save_locked, save_if_any,
}

-- The first task of a list with that id.
abbrev pub find : String → List Task → Option Task
find k [] = none
find k (t ∷ ts) = if str_eq t.id k then some t else find k ts

abbrev pub DistinctIds : List Task → Type 0
DistinctIds [] = Unit
DistinctIds (t ∷ ts) = (find t.id ts ≡ none) × DistinctIds ts

-- Every key is the id of its task, and stands once.
abbrev pub IsKeyed : Dict Task → Type 0
IsKeyed = IsKeyedBy (λ t. t.id)

-- What a task that fires leaves in the store.
abbrev pub next_of : Task → Try (Option Datetime) → Option Task
next_of t raised = none
next_of t (returned none) = none
next_of t (returned (some d)) = some (rescheduled t d)

unfoldable pub successor : Task → Option Task
successor t = next_of t (compute_next_due t)

abbrev after_fire : Option Task → Option Task → Option Task
after_fire none old = old
after_fire (some t) old = successor t

lookup-put_next :
    (t : Task) (next : Option Datetime) (k : String) (tasks : Dict Task)
    → lookup k (put_next t next (remove t.id tasks))
      ≡ (if str_eq t.id k then next_of t (returned next) else lookup k tasks)
lookup-put_next t none k tasks = lookup-remove t.id k tasks
lookup-put_next t (some d) k tasks =
    ground
      (arith, lookup-put t.id k (rescheduled t d) (remove t.id tasks), lookup-remove t.id k tasks)

fire_or_keep :
    (t : Task) (next : Option Datetime) (ts : List Task) (k : String) (tasks : Dict Task)
    → compute_next_due t ≡ returned next
    → find t.id ts ≡ none
    → after_fire (find k ts) (lookup k (put_next t next (remove t.id tasks)))
      ≡ after_fire (find k (t ∷ ts)) (lookup k tasks)
unfolding successor
fire_or_keep t next ts k tasks e fresh = rw lookup-put_next (elim (Bool-cases (str_eq t.id k)) [
  | inl same ↦
      let missing : find k ts ≡ none = rw (← (eq_iff t.id k).0 same) fresh in rw (same, missing, e)
  | inr other ↦ rw other
])

-- The loop fires the given tasks in order, and replaces each by its successor.
pop_each_lem :
    (ts fired : List Task) (tasks : Dict Task)
    → DistinctIds ts
    → (pop_each ts tasks).0 ≡ returned fired
    → (fired ≡ ts)
      × ((k : String) → lookup k (pop_each ts tasks).1 ≡ after_fire (find k ts) (lookup k tasks))
unfolding pop_each
pop_each_lem [] fired tasks distinct h = (cc h, λ k. refl)
pop_each_lem (t ∷ ts) fired tasks distinct h = elim (Try-cases (compute_next_due t)) [
  | inl fails ↦ absurd (cc (rw (fails, pop_each) at h))
  | inr (next, e) ↦
      let rest = put_next t next (remove t.id tasks) in
      elim (Try-cases (pop_each ts rest).0) [
        | inl fails ↦ absurd (cc (rw (e, fails, pop_each) at h))
        | inr (others, f) ↦
            let (same, kept) = pop_each_lem ts others rest distinct.1 f in
            (
              cc (same, rw (e, f, pop_each) at h),
              λ k. rw (e, pop_each) (kept k ∙ fire_or_keep t next ts k tasks e distinct.0),
            )
      ]
]

-- The due tasks of a keyed store, looked up by id.
find-due :
    (now : Datetime) (k : String) (tasks : Dict Task)
    → IsKeyed tasks
    → find k (select (is_due now) (values tasks))
      ≡ elim (lookup k tasks) [ none ↦ none | some t ↦ if is_due now t then some t else none ]
unfolding lookup values
find-due now k [] keyed = refl
find-due now k ((j, t) ∷ tasks) keyed =
    ground (arith, find-due now k tasks keyed.2, eq_iff j k, eq_iff t.id k)

due-DistinctIds :
    (now : Datetime) (tasks : Dict Task)
    → IsKeyed tasks
    → DistinctIds (select (is_due now) (values tasks))
unfolding values
due-DistinctIds now [] keyed = tt
due-DistinctIds now ((j, t) ∷ tasks) keyed =
    let r = due-DistinctIds now tasks keyed.2 in
    let fresh : find t.id (select (is_due now) (values tasks)) ≡ none =
      rw (keyed.0, find-due now j tasks keyed.2, keyed.1) in
    elim (Bool-cases (is_due now t)) [ inl due ↦ rw due (fresh, r) | inr later ↦ rw later r ]

pub tasks-save_if_any :
    (writable : Bool) (ts : List Task) (s : TaskStore) → (save_if_any writable ts s).tasks ≡ s.tasks
unfolding save_locked
tasks-save_if_any writable [] s = refl
tasks-save_if_any writable (t ∷ ts) s = elim (Bool-cases (s.has_path && writable)) [
  | inl saved ↦ rw saved
  | inr kept ↦ rw kept
]

-- Saving changes neither the fired tasks nor the tasks in memory.
pub pop_due-eq-pop_each :
    (writable : Bool) (now : Datetime) (s : TaskStore)
    → let loop = pop_each (due_tasks now s) s.tasks in
      ((pop_due writable now s).0 ≡ loop.0) × ((pop_due writable now s).1.tasks ≡ loop.1)
unfolding pop_due
pop_due-eq-pop_each writable now s = elim (Try-cases (pop_each (due_tasks now s) s.tasks).0) [
  | inl fails ↦ rw (fails, pop_due) (refl, refl)
  | inr (ts, e) ↦ rw (e, pop_due) (refl, tasks-save_if_any writable (due_tasks now s) _)
]

-- What a poll at `now` makes of one task.
abbrev pub after_poll : Datetime → Option Task → Option Task
after_poll now none = none
after_poll now (some t) = if is_due now t then successor t else some t

due-after_poll :
    (now : Datetime) (k : String) (tasks : Dict Task)
    → IsKeyed tasks
    → after_fire (find k (select (is_due now) (values tasks))) (lookup k tasks)
      ≡ after_poll now (lookup k tasks)
due-after_poll now k tasks keyed = rw (find-due now k tasks keyed) (go (lookup k tasks))
  where
    go :
        (o : Option Task)
        → after_fire (elim o [ none ↦ none | some t ↦ if is_due now t then some t else none ]) o
          ≡ after_poll now o
    go none = refl
    go (some t) = ground arith

-- A poll at time `now` that returns: the fired tasks are those due, in the order of the store and
-- with the due times that they had, and afterwards each task that was not due is as it was, while
-- each due one has been replaced by its successor, if it has any.
pub pop_due_lem :
    (writable : Bool) (now : Datetime) (s : TaskStore) (fired : List Task)
    → IsKeyed s.tasks
    → (pop_due writable now s).0 ≡ returned fired
    → (fired ≡ select (is_due now) (values s.tasks))
      × ((k : String)
          → lookup k (pop_due writable now s).1.tasks ≡ after_poll now (lookup k s.tasks))
pop_due_lem writable now s fired keyed h =
    let (fires, leaves) = pop_due-eq-pop_each writable now s in
    let (same, replaced) =
      pop_each_lem (due_tasks now s) fired s.tasks
        (unfold due_tasks in due-DistinctIds now s.tasks keyed) (sym fires ∙ h) in
    (
      unfold due_tasks in same,
      λ k.
          ap (lookup k) leaves
          ∙ replaced k
          ∙ unfold due_tasks in due-after_poll now k s.tasks keyed,
    )
