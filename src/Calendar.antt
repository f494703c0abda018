-- ===== src/Calendar.antt =====
-- What `src/kai/agent/scheduler.py` and `src/kai/agent/recurrence.py` use of Python's `datetime`
-- and `calendar`, for aware UTC times: the fields, the proleptic Gregorian ordinal, weekdays,
-- month lengths, and day offsets that raise past the year 9999.
pub mod Laws
pub mod Range
use meetkai.Common.{
  ℕ, zero, suc, ◌+◌, ◌-◌, ◌*◌, ◌/◌, ◌%◌, ◌≤◌, ◌<◌, Bool, not, ◌&&◌, ◌||◌, ltb, ◌==◌, if◌then◌else◌,
}
use meetkai.Common.Try.{Try, returned, raised}

-- `time` counts the microseconds since midnight.
pub record Datetime : Type 0 where
  pub year : ℕ
  pub month : ℕ
  pub day : ℕ
  pub time : ℕ

abbrev pub max_year : ℕ
max_year = 9999

abbrev pub day_length : ℕ
day_length = 86400000000

unfoldable pub is_leap : ℕ → Bool
is_leap y = y % 4 == 0 && (not (y % 100 == 0) || y % 400 == 0)

-- `calendar.monthrange(year, month)[1]`
unfoldable pub days_in_month : ℕ → ℕ → ℕ
days_in_month y m =
    if m == 2
    then (if is_leap y then 29 else 28)
    else if m == 4 || (m == 6 || (m == 9 || m == 11))
    then 30
    else 31

unfoldable pub days_before_year : ℕ → ℕ
days_before_year y = (y - 1) * 365 + (y - 1) / 4 + (y - 1) / 400 - (y - 1) / 100

unfoldable pub days_before_month : ℕ → ℕ → ℕ
days_before_month year zero = 0
days_before_month year (suc zero) = 0
days_before_month year (suc (suc past)) =
    days_before_month year (suc past) + days_in_month year (suc past)

-- `dt.toordinal()`
unfoldable pub ordinal : Datetime → ℕ
ordinal d = days_before_year d.year + days_before_month d.year d.month + d.day

-- Aware UTC times compare by the microseconds since the start of the calendar.
unfoldable pub instant : Datetime → ℕ
instant d = ordinal d * day_length + d.time

-- `dt.weekday()`, with Monday 0
unfoldable pub weekday : Datetime → ℕ
weekday d = (ordinal d + 6) % 7

unfoldable pub next_day : Datetime → Datetime
next_day d =
    if ltb d.day (days_in_month d.year d.month)
    then record d { day = d.day + 1 }
    else if ltb d.month 12
    then record d { month = d.month + 1; day = 1 }
    else record d { year = d.year + 1; month = 1; day = 1 }

unfoldable pub days_later : ℕ → Datetime → Datetime
days_later zero d = d
days_later (suc n) d = days_later n (next_day d)

-- `dt + timedelta(days=n)`, which raises OverflowError past the last year
unfoldable pub add_days : ℕ → Datetime → Try Datetime
add_days n d = let e = days_later n d in if ltb max_year e.year then raised else returned e

-- A `datetime` value: its constructor refuses anything else.
pub record IsDatetime (d : Datetime) : Type 0 where
  pub year_pos : 1 ≤ d.year
  pub month_pos : 1 ≤ d.month
  pub month_cap : d.month ≤ 12
  pub day_pos : 1 ≤ d.day
  pub day_cap : d.day ≤ days_in_month d.year d.month
  pub time_cap : d.time < day_length
