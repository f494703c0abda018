-- ===== src/Tasks/Invariant.antt =====
-- What holds of the store between any two calls.
use Prim.Native.Nat.{max}
use meetkai.Common.{
  ℕ, ◌+◌, ◌<◌, ◌≡◌, refl, sym, inl, inr, String, Bool, false, ◌&&◌, Option, none, some, List, [],
  ◌∷◌, arith, select, Bool-cases, Option-cases, All, str_eq, eq_iff,
}
use meetkai.Common.Dict.{Dict, lookup, put, remove, values, lookup-put, lookup-remove}
use meetkai.Common.Try.{returned, Try-cases}
use meetkai.Calendar.{Datetime, IsDatetime}
use meetkai.Tasks.{Task, compute_next_due, count_reached}
use meetkai.Tasks.Next.{compute_next_due-IsNextDue}
use meetkai.Tasks.Store.{
  TaskStore, is_due, due_tasks, pop_each, pop_due, put_next, rescheduled, add, cancel, save_locked,
}
use meetkai.Tasks.PopDue.{IsKeyed, pop_due-eq-pop_each}

lookup-put_none :
    (t : Task) (j : String) (tasks : Dict Task)
    → str_eq j t.id ≡ false
    → lookup j tasks ≡ none
    → lookup j (put t.id t tasks) ≡ none
lookup-put_none t j tasks other h =
    ground (arith, lookup-put t.id j t tasks, eq_iff j t.id, eq_iff t.id j)

IsKeyed-put : (t : Task) (tasks : Dict Task) → IsKeyed tasks → IsKeyed (put t.id t tasks)
unfolding put lookup
IsKeyed-put t [] keyed = (refl, refl, tt)
IsKeyed-put t ((j, u) ∷ tasks) keyed = elim (Bool-cases (str_eq j t.id)) [
  | inl same ↦ rw same (sym ((eq_iff j t.id).0 same), keyed.1, keyed.2)
  | inr other ↦
      rw other (keyed.0, lookup-put_none t j tasks other keyed.1, IsKeyed-put t tasks keyed.2)
]

lookup-remove_none :
    (k j : String) (tasks : Dict Task) → lookup j tasks ≡ none → lookup j (remove k tasks) ≡ none
lookup-remove_none k j tasks h = ground (arith, lookup-remove k j tasks)

IsKeyed-remove : (k : String) (tasks : Dict Task) → IsKeyed tasks → IsKeyed (remove k tasks)
unfolding remove
IsKeyed-remove k [] keyed = tt
IsKeyed-remove k ((j, u) ∷ tasks) keyed = elim (Bool-cases (str_eq j k)) [
  | inl same ↦ rw same (IsKeyed-remove k tasks keyed.2)
  | inr other ↦
      rw other (keyed.0, lookup-remove_none k j tasks keyed.1, IsKeyed-remove k tasks keyed.2)
]

module _ (P : Task → Type 0) where
  All-put :
      (t : Task) (k : String) (tasks : Dict Task)
      → P t
      → All P (values tasks)
      → All P (values (put k t tasks))
  unfolding put values
  All-put t k [] p h = (p, tt)
  All-put t k ((j, u) ∷ tasks) p h = elim (Bool-cases (str_eq j k)) [
    | inl same ↦ rw same (p, h.1)
    | inr other ↦ rw other (h.0, All-put t k tasks p h.1)
  ]

  All-remove :
      (k : String) (tasks : Dict Task) → All P (values tasks) → All P (values (remove k tasks))
  unfolding remove values
  All-remove k [] h = tt
  All-remove k ((j, u) ∷ tasks) h = elim (Bool-cases (str_eq j k)) [
    | inl same ↦ rw same (All-remove k tasks h.1)
    | inr other ↦ rw other (h.0, All-remove k tasks h.1)
  ]

  All-select : (p : Task → Bool) (ts : List Task) → All P ts → All P (select p ts)
  All-select p [] h = tt
  All-select p (t ∷ ts) h = elim (Bool-cases (p t)) [
    | inl here ↦ rw here (h.0, All-select p ts h.1)
    | inr gone ↦ rw gone (All-select p ts h.1)
  ]

-- A task of the store has a proper due time, and has fired less often than its `count` (and never,
-- if that is 0).
abbrev BelowCount : Option ℕ → ℕ → Type 0
BelowCount none n = Unit
BelowCount (some c) n = n < max 1 c

pub record IsSound (t : Task) : Type 0 where
  pub due : IsDatetime t.due_at
  pub below : BelowCount t.count t.occurrences

-- Every key is the id of its task and stands once, and every task is sound.
pub record IsConsistent (tasks : Dict Task) : Type 0 where
  pub keyed : IsKeyed tasks
  pub sound : All IsSound (values tasks)

pub tasks-save_locked : (writable : Bool) (s : TaskStore) → (save_locked writable s).tasks ≡ s.tasks
unfolding save_locked
tasks-save_locked writable s = elim (Bool-cases (s.has_path && writable)) [
  | inl saved ↦ rw saved
  | inr kept ↦ rw kept
]

IsConsistent-put :
    (t : Task) (tasks : Dict Task)
    → IsSound t
    → IsConsistent tasks
    → IsConsistent (put t.id t tasks)
IsConsistent-put t tasks ok h = record {
  keyed = IsKeyed-put t tasks h.keyed;
  sound = All-put IsSound t t.id tasks ok h.sound;
}

IsConsistent-remove :
    (k : String) (tasks : Dict Task) → IsConsistent tasks → IsConsistent (remove k tasks)
IsConsistent-remove k tasks h = record {
  keyed = IsKeyed-remove k tasks h.keyed;
  sound = All-remove IsSound k tasks h.sound;
}

-- Adding a sound task keeps the store consistent.
pub add-IsConsistent :
    (writable : Bool) (t : Task) (s : TaskStore)
    → IsSound t
    → IsConsistent s.tasks
    → IsConsistent (add writable t s).tasks
unfolding add
add-IsConsistent writable t s ok h =
    rw (tasks-save_locked writable (record s { tasks = put t.id t s.tasks }))
      (IsConsistent-put t s.tasks ok h)

-- Cancelling keeps the store consistent, whatever it answers.
pub cancel-IsConsistent :
    (writable : Bool) (task_id chat_id : String) (s : TaskStore)
    → IsConsistent s.tasks
    → IsConsistent (cancel writable task_id chat_id s).1.tasks
unfolding cancel
cancel-IsConsistent writable task_id chat_id s h = elim (Option-cases (lookup task_id s.tasks)) [
  | inl missing ↦ rw (missing, cancel) h
  | inr (t, found) ↦ elim (Bool-cases (str_eq t.chat_id chat_id)) [
    | inl ours ↦
        rw
          (
            found,
            ours,
            cancel,
            tasks-save_locked writable (record s { tasks = remove task_id s.tasks }),
          )
          (IsConsistent-remove task_id s.tasks h)
    | inr theirs ↦ rw (found, theirs, cancel) h
  ]
]

below_one_more : (c : Option ℕ) (n : ℕ) → count_reached c n ≡ false → BelowCount c (n + 1)
below_one_more none n h = tt
below_one_more (some c) n h = ground arith

rescheduled-IsSound :
    (t : Task) (d : Datetime)
    → IsSound t
    → compute_next_due t ≡ returned (some d)
    → IsSound (rescheduled t d)
rescheduled-IsSound t d ok e =
    let r = compute_next_due-IsNextDue t d ok.due e in
    record { due = r.is_datetime; below = below_one_more t.count t.occurrences r.count_kept }

put_next-IsConsistent :
    (t : Task) (next : Option Datetime) (tasks : Dict Task)
    → IsSound t
    → compute_next_due t ≡ returned next
    → IsConsistent tasks
    → IsConsistent (put_next t next tasks)
put_next-IsConsistent t none tasks ok e h = h
put_next-IsConsistent t (some d) tasks ok e h =
    IsConsistent-put (rescheduled t d) tasks (rescheduled-IsSound t d ok e) h

pop_each-IsConsistent :
    (ts : List Task) (tasks : Dict Task)
    → All IsSound ts
    → IsConsistent tasks
    → IsConsistent (pop_each ts tasks).1
unfolding pop_each
pop_each-IsConsistent [] tasks ok h = h
pop_each-IsConsistent (t ∷ ts) tasks ok h =
    let popped = IsConsistent-remove t.id tasks h in
    elim (Try-cases (compute_next_due t)) [
      | inl fails ↦ rw (fails, pop_each) popped
      | inr (next, e) ↦
          rw (e, pop_each)
            (pop_each-IsConsistent ts (put_next t next (remove t.id tasks)) ok.1
              (put_next-IsConsistent t next (remove t.id tasks) ok.0 e popped))
    ]

-- A poll keeps the store consistent, also where it raises.
pub pop_due-IsConsistent :
    (writable : Bool) (now : Datetime) (s : TaskStore)
    → IsConsistent s.tasks
    → IsConsistent (pop_due writable now s).1.tasks
unfolding due_tasks
pop_due-IsConsistent writable now s h = rw ((pop_due-eq-pop_each writable now s).1) (
    pop_each-IsConsistent (due_tasks now s) s.tasks
      (All-select IsSound (is_due now) (values s.tasks) h.sound) h)
