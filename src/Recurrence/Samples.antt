-- ===== src/Recurrence/Samples.antt =====
-- Examples of recurrences in June 2026, where the first day is a Monday.
use meetkai.Common.{◌≡◌, refl, some, [], ◌∷◌, arith}
use meetkai.Common.Try.{returned}
use meetkai.Calendar.{Datetime, IsDatetime, ordinal, days_in_month, weekday}
use meetkai.Recurrence.{advance_weekly, advance_monthly}
use meetkai.Recurrence.Weekly.{IsFirstListed, advance_weekly-IsFirstListed}
use meetkai.Recurrence.Monthly.{IsMonthsLater, advance_monthly-IsMonthsLater}

abbrev monday : Datetime
monday = record { year = 2026; month = 6; day = 1; time = 0 }

abbrev wednesday : Datetime
wednesday = record { year = 2026; month = 6; day = 3; time = 0 }

abbrev january_31 : Datetime
january_31 = record { year = 2026; month = 1; day = 31; time = 0 }

abbrev february_28 : Datetime
february_28 = record { year = 2027; month = 2; day = 28; time = 0 }

monday-IsDatetime : IsDatetime monday
unfolding days_in_month
monday-IsDatetime = record {
  year_pos = omega arith;
  month_pos = omega arith;
  month_cap = omega arith;
  day_pos = omega arith;
  day_cap = omega arith;
  time_cap = omega arith;
}

january_31-IsDatetime : IsDatetime january_31
unfolding days_in_month
january_31-IsDatetime = record {
  year_pos = omega arith;
  month_pos = omega arith;
  month_cap = omega arith;
  day_pos = omega arith;
  day_cap = omega arith;
  time_cap = omega arith;
}

a_monday : weekday monday ≡ 0
unfolding weekday ordinal meetkai.Calendar.days_before_year meetkai.Calendar.days_before_month
    days_in_month meetkai.Calendar.is_leap
a_monday = refl

to_wednesday : advance_weekly monday 1 (some (2 ∷ 4 ∷ [])) ≡ returned wednesday
unfolding advance_weekly meetkai.Recurrence.next_on_weekday meetkai.Calendar.add_days
    meetkai.Calendar.days_later meetkai.Calendar.next_day days_in_month meetkai.Recurrence.falls_on
    ordinal meetkai.Calendar.days_before_year meetkai.Calendar.days_before_month
    meetkai.Calendar.is_leap
to_wednesday = refl

to_february : advance_monthly january_31 13 ≡ returned february_28
unfolding advance_monthly meetkai.Recurrence.roll_months days_in_month meetkai.Calendar.is_leap
to_february = refl

advance_weekly-IsFirstListed_example : IsFirstListed (2 ∷ 4 ∷ []) monday wednesday
advance_weekly-IsFirstListed_example =
    advance_weekly-IsFirstListed monday wednesday 1 2 (4 ∷ []) monday-IsDatetime (omega arith) refl
      to_wednesday

advance_monthly-IsMonthsLater_example : IsMonthsLater 13 january_31 february_28
advance_monthly-IsMonthsLater_example =
    advance_monthly-IsMonthsLater january_31 february_28 13 january_31-IsDatetime to_february
