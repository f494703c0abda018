-- ===== src/Recurrence/Monthly.antt =====
-- Monthly recurrence.
use Prim.Native.Nat.{min}
use meetkai.Common.{
  ℕ, zero, suc, ◌+◌, ◌-◌, ◌*◌, ◌≤◌, ◌<◌, ◌≡◌, refl, inl, inr, ltb, arith, Bool-cases,
}
use meetkai.Common.Try.{returned}
use meetkai.Calendar.{Datetime, IsDatetime, ordinal, days_in_month, max_year}
use meetkai.Calendar.Laws.{
  days_in_month-bounds, month_start, month_start-next, month_start-new_year,
}
use native.Mathlib.Decide.{dec_lt}
use meetkai.Recurrence.{roll_months, advance_monthly}

-- With enough rounds the loop ends at a month of the year, the same number of months on.
pub roll_months_lem :
    (fuel year month : ℕ)
    → month ≤ fuel
    → 1 ≤ month
    → (12 * (roll_months fuel year month).0 + (roll_months fuel year month).1 ≡ 12 * year + month)
      × (1 ≤ (roll_months fuel year month).1)
      × ((roll_months fuel year month).1 ≤ 12)
      × (year ≤ (roll_months fuel year month).0)
unfolding roll_months
roll_months_lem zero year month h p = absurd (omega arith)
roll_months_lem (suc fuel) year month h p = elim (Bool-cases (ltb 12 month)) [
  | inl more ↦ rw more (
      let r = roll_months_lem fuel (year + 1) (month - 12) (ground arith) (ground arith) in
      (omega (arith, r.0), r.1, r.2, omega (arith, r.3)))
  | inr done ↦ rw done (ground arith)
]

-- The monthly occurrence: the same time of day, `interval` calendar months on, the day clamped to
-- the length of the month, in a year that `datetime` holds.
pub record IsMonthsLater (interval : ℕ) (d e : Datetime) : Type 0 where
  pub is_datetime : IsDatetime e
  pub months : 12 * e.year + e.month ≡ 12 * d.year + d.month + interval
  pub clamped : e.day ≡ min d.day (days_in_month e.year e.month)
  pub same_time : e.time ≡ d.time
  pub year_cap : e.year ≤ max_year

-- A monthly step that does not raise gives a proper time at the same time of day, the given number
-- of calendar months on, its day the smaller of the old day and the length of the new month.
pub advance_monthly-IsMonthsLater :
    (d e : Datetime) (interval : ℕ)
    → IsDatetime d
    → advance_monthly d interval ≡ returned e
    → IsMonthsLater interval d e
unfolding advance_monthly
advance_monthly-IsMonthsLater d e interval v h =
    let months = d.month + interval in
    let rolled = roll_months months d.year months in
    let r = roll_months_lem months d.year months (omega arith) (omega arith) in
    let lengths = days_in_month-bounds rolled.0 rolled.1 in
    elim (Bool-cases (ltb max_year rolled.0)) [
      | inl far ↦ absurd (cc (rw far at h))
      | inr near ↦
          let same : record d {
            year = rolled.0;
            month = rolled.1;
            day = min d.day (days_in_month rolled.0 rolled.1);
          }
              ≡ e =
            cc (rw near at h) in
          rw (← same) (record {
            is_datetime = omega (arith, r, lengths);
            months = omega (arith, r.0);
            clamped = refl;
            same_time = refl;
            year_cap = ground arith;
          })
    ]

-- A later month starts after the last day of an earlier one.
month_start_mono :
    (k y m y' m' : ℕ)
    → 1 ≤ y
    → 1 ≤ m
    → m ≤ 12
    → 1 ≤ m'
    → m' ≤ 12
    → 12 * y' + m' ≡ 12 * y + m + suc k
    → month_start y m + days_in_month y m ≤ month_start y' m'
month_start_mono zero y m y' m' py pm cm pm' cm' h = elim (dec_lt m 12) [
  | yes early ↦
      let same_year : y' ≡ y = omega arith in
      let next : m' ≡ m + 1 = omega arith in
      rw (same_year, next) (omega (arith, month_start-next y m pm))
  | no late ↦
      let last : m ≡ 12 = omega arith in
      let new_year : y' ≡ y + 1 = omega arith in
      let first : m' ≡ 1 = omega arith in
      rw (last, new_year, first) (omega (arith, month_start-new_year y py))
]
month_start_mono (suc k) y m y' m' py pm cm pm' cm' h = elim (dec_lt m 12) [
  | yes early ↦ omega (
    arith,
    month_start-next y m pm,
    month_start_mono k y (m + 1) y' m' py (omega arith) (omega (arith, early)) pm' cm'
        (omega arith),
  )
  | no late ↦
      let last : m ≡ 12 = omega arith in
      let ahead =
        month_start_mono k (y + 1) 1 y' m' (omega arith) (omega arith) (omega arith) pm' cm'
          (omega arith) in
      rw last (omega (arith, month_start-new_year y py, ahead))
]

-- The monthly occurrence is a later day at the same time of day.
pub advance_monthly-later :
    (d e : Datetime) (interval : ℕ)
    → IsDatetime d
    → 1 ≤ interval
    → advance_monthly d interval ≡ returned e
    → (ordinal d < ordinal e) × (e.time ≡ d.time) × IsDatetime e
unfolding ordinal
advance_monthly-later d e interval v pos h =
    let r = advance_monthly-IsMonthsLater d e interval v h in
    let starts =
      month_start_mono (interval - 1) d.year d.month e.year e.month v.year_pos v.month_pos
        v.month_cap r.is_datetime.month_pos r.is_datetime.month_cap (omega (arith, r.months)) in
    (omega (arith, starts, r.is_datetime.day_pos), r.same_time, r.is_datetime)
