-- ===== src/Tasks/Returns.antt =====
-- Polls of tasks whose recurring ones are far from the last year.
use Prim.Native.Nat.{max}
use meetkai.Common.{
  ℕ, zero, suc, ◌+◌, ◌*◌, ◌≤◌, ◌≡◌, refl, ◌∙◌, inl, inr, Bool, true, false, Option, none, some,
  List, [], ◌∷◌, All, arith, ltb, Bool-cases, select,
}
use meetkai.Common.Try.{Try, returned}
use meetkai.Common.Dict.{Dict, values, remove}
use meetkai.Calendar.{Datetime, IsDatetime, days_later, max_year}
use meetkai.Calendar.Range.{year-days_later, add_days-returns}
use meetkai.Recurrence.{falls_on, next_on_weekday, advance_weekly, roll_months, advance_monthly}
use meetkai.Recurrence.Monthly.{roll_months_lem}
use meetkai.Tasks.{
  Task, advance_by, advance_recurrence, compute_next_due, is_recurring, within_limits,
}
use meetkai.Tasks.Repeat.{RepeatKind, daily, weekly, monthly}
use meetkai.Tasks.Store.{TaskStore, is_due, due_tasks, pop_each, pop_due, put_next}
use meetkai.Tasks.PopDue.{pop_due-eq-pop_each}

-- The computation returns a value.
abbrev pub Returns {ℓ} : {A : Type ℓ} → Try A → Type ℓ
Returns {A = A} m = (a : A) × (m ≡ returned a)

next_on_weekday-Returns :
    (n : ℕ) (d : Datetime) (weekdays : List ℕ)
    → d.year + n ≤ max_year
    → Returns (next_on_weekday n d weekdays)
unfolding next_on_weekday
next_on_weekday-Returns zero d weekdays near = (d, refl)
next_on_weekday-Returns (suc n) d weekdays near =
    let e = days_later 1 d in
    let year = year-days_later 1 d in
    let (later, eq) = next_on_weekday-Returns n e weekdays (omega (arith, near, year)) in
    elim (Bool-cases (falls_on weekdays e)) [
      | inl here ↦ (e, rw (add_days-returns 1 d (omega (arith, near)), here) refl)
      | inr on ↦ (later, rw (add_days-returns 1 d (omega (arith, near)), on) eq)
    ]

advance_weekly-Returns :
    (d : Datetime) (interval : ℕ) (weekdays : Option (List ℕ))
    → d.year + (7 * interval + 1) ≤ max_year
    → Returns (advance_weekly d interval weekdays)
unfolding advance_weekly
advance_weekly-Returns d interval none near =
    (_, add_days-returns (7 * interval) d (omega (arith, near)))
advance_weekly-Returns d interval (some []) near =
    (_, add_days-returns (7 * interval) d (omega (arith, near)))
advance_weekly-Returns d interval (some (w ∷ ws)) near =
    next_on_weekday-Returns (7 * interval + 1) d (w ∷ ws) near

advance_monthly-Returns :
    (d : Datetime) (interval : ℕ)
    → IsDatetime d
    → d.year + (interval + 1) ≤ max_year
    → Returns (advance_monthly d interval)
unfolding advance_monthly
advance_monthly-Returns d interval v near =
    let months = d.month + interval in
    let r = roll_months_lem months d.year months (omega arith) (omega (arith, v.month_pos)) in
    let small : ltb max_year (roll_months months d.year months).0 ≡ false =
      ground (arith, r, v.month_cap, near) in
    rw small (_, refl)

-- A task with a proper due time that, if it recurs, is far from the last year: at least 7 years for
-- each of its interval and one more.
pub record IsNear (t : Task) : Type 0 where
  pub due : IsDatetime t.due_at
  pub room : is_recurring t.repeat ≡ true → t.due_at.year + (7 * max 1 t.interval + 1) ≤ max_year

advance_by-Returns :
    (kind : RepeatKind) (d : Datetime) (interval : ℕ) (weekdays : Option (List ℕ))
    → IsDatetime d
    → d.year + (7 * interval + 1) ≤ max_year
    → Returns (advance_by kind d interval weekdays)
unfolding advance_by
advance_by-Returns daily d interval weekdays v near =
    (_, add_days-returns interval d (omega (arith, near)))
advance_by-Returns weekly d interval weekdays v near =
    advance_weekly-Returns d interval weekdays near
advance_by-Returns monthly d interval weekdays v near =
    advance_monthly-Returns d interval v (omega (arith, near))
advance_by-Returns RepeatKind.none d interval weekdays v near = (d, refl)

pub compute_next_due-Returns : (t : Task) → IsNear t → Returns (compute_next_due t)
unfolding compute_next_due advance_recurrence
compute_next_due-Returns t near = elim (Bool-cases (is_recurring t.repeat)) [
  | inr once ↦ (none, rw once refl)
  | inl again ↦
      let (d, e) =
        advance_by-Returns t.repeat t.due_at (max 1 t.interval) t.weekdays near.due
          (near.room again) in
      (within_limits t d, rw (again, e) refl)
]

pop_each-Returns :
    (ts : List Task) (tasks : Dict Task) → All IsNear ts → Returns (pop_each ts tasks).0
unfolding pop_each
pop_each-Returns [] tasks near = ([], refl)
pop_each-Returns (t ∷ ts) tasks near =
    let (next, e) = compute_next_due-Returns t near.0 in
    let (rest, e') = pop_each-Returns ts (put_next t next (remove t.id tasks)) near.1 in
    (t ∷ rest, rw (e, pop_each, e') refl)

All-due : (now : Datetime) (ts : List Task) → All IsNear ts → All IsNear (select (is_due now) ts)
All-due now [] near = tt
All-due now (t ∷ ts) near = elim (Bool-cases (is_due now t)) [
  | inl due ↦ rw due (near.0, All-due now ts near.1)
  | inr later ↦ rw later (All-due now ts near.1)
]

-- A poll returns a list of fired tasks, whatever the file system answers, if every task of the store
-- has a proper due time and every recurring one is far from the last year: the year of its due time,
-- 7 years for each of its interval, at least 1, and one more year are at most 9999.
pub pop_due-Returns :
    (writable : Bool) (now : Datetime) (s : TaskStore)
    → All IsNear (values s.tasks)
    → Returns (pop_due writable now s).0
unfolding due_tasks
pop_due-Returns writable now s near =
    let (fired, e) =
      pop_each-Returns (due_tasks now s) s.tasks (All-due now (values s.tasks) near) in
    (fired, (pop_due-eq-pop_each writable now s).0 ∙ e)
