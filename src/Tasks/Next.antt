-- ===== src/Tasks/Next.antt =====
-- When a recurring task fires next.
use Prim.Native.Nat.{max}
use meetkai.Common.{ℕ, ◌≤◌, ◌<◌, ◌≡◌, inl, inr, true, false, Option, some, List, arith, Bool-cases}
use meetkai.Common.Try.{returned, >>=-eq-returned}
use meetkai.Calendar.{Datetime, IsDatetime, instant, ordinal}
use meetkai.Calendar.Laws.{add_days-IsLater}
use meetkai.Recurrence.Weekly.{advance_weekly-later}
use meetkai.Recurrence.Monthly.{advance_monthly-later}
use meetkai.Tasks.Repeat.{RepeatKind, daily, weekly, monthly}
use meetkai.Tasks.{
  Task, advance_by, advance_recurrence, compute_next_due, past_until, count_reached, is_recurring,
  within_limits,
}

later-instant : (d e : Datetime) → ordinal d < ordinal e → e.time ≡ d.time → instant d < instant e
unfolding instant
later-instant d e h same = omega (arith, h, same)

advance_by-later :
    (kind : RepeatKind) (d e : Datetime) (interval : ℕ) (weekdays : Option (List ℕ))
    → IsDatetime d
    → 1 ≤ interval
    → is_recurring kind ≡ true
    → advance_by kind d interval weekdays ≡ returned e
    → (ordinal d < ordinal e) × (e.time ≡ d.time) × IsDatetime e
unfolding advance_by
advance_by-later RepeatKind.none d e interval weekdays v pos rec h = cc rec
advance_by-later daily d e interval weekdays v pos rec h =
    let later = (add_days-IsLater interval d e v h).0 in
    (omega (arith, later.days), later.same_time, later.is_datetime)
advance_by-later weekly d e interval weekdays v pos rec h =
    advance_weekly-later d e interval weekdays v pos h
advance_by-later monthly d e interval weekdays v pos rec h =
    advance_monthly-later d e interval v pos h

within_limits-eq :
    (t : Task) (e d : Datetime)
    → within_limits t e ≡ some d
    → (e ≡ d) × (past_until t.until e ≡ false) × (count_reached t.count t.occurrences ≡ false)
within_limits-eq t e d h = elim (Bool-cases (past_until t.until e)) [
  | inl past ↦ absurd (cc (rw past at h))
  | inr before ↦ elim (Bool-cases (count_reached t.count t.occurrences)) [
    | inl reached ↦ absurd (cc (rw (before, reached) at h))
    | inr open_count ↦ (cc (rw (before, open_count) at h), before, open_count)
  ]
]

-- What the next due time of a task promises.
pub record IsNextDue (t : Task) (d : Datetime) : Type 0 where
  pub later : instant t.due_at < instant d
  pub is_datetime : IsDatetime d
  pub same_time : d.time ≡ t.due_at.time
  pub until_kept : past_until t.until d ≡ false
  pub count_kept : count_reached t.count t.occurrences ≡ false

-- A next due time is a proper time strictly after the last one, at the same time of day, not past
-- `until`, and only while one more firing stays below `count`.
pub compute_next_due-IsNextDue :
    (t : Task) (d : Datetime)
    → IsDatetime t.due_at
    → compute_next_due t ≡ returned (some d)
    → IsNextDue t d
unfolding compute_next_due advance_recurrence
compute_next_due-IsNextDue t d v h = elim (Bool-cases (is_recurring t.repeat)) [
  | inr once ↦ absurd (cc (rw once at h))
  | inl again ↦
      let (e, advanced, limited) = >>=-eq-returned _ _ (rw again at h) in
      let r =
        advance_by-later t.repeat t.due_at e (max 1 t.interval) t.weekdays v (omega arith) again
          advanced in
      let (same, until_kept, count_kept) = within_limits-eq t e d (cc limited) in
      rw (← same) (record {
        later = later-instant t.due_at e r.0 r.1;
        is_datetime = r.2;
        same_time = r.1;
        until_kept = until_kept;
        count_kept = count_kept;
      })
]
