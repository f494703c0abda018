-- ===== src/Recurrence.antt =====
-- `src/kai/agent/recurrence.py`: the next weekly or monthly occurrence of a time.
pub mod Weekly
pub mod Monthly
pub mod Samples
use Prim.Native.Nat.{min}
use meetkai.Common.{
  ℕ, zero, suc, ◌+◌, ◌-◌, ◌*◌, Bool, Option, none, some, List, [], ◌∷◌, ltb, ◌==◌, any,
  if◌then◌else◌,
}
use meetkai.Common.Try.{Try, returned, raised, ◌>>=◌}
use meetkai.Calendar.{Datetime, weekday, add_days, days_in_month, max_year}

-- `next_dt.weekday() in weekdays`
unfoldable pub falls_on : List ℕ → Datetime → Bool
unfolding weekday
falls_on weekdays d = any (λ w. w == weekday d) weekdays

-- The `for` loop of `advance_weekly`; the first argument counts the rounds left.
unfoldable pub next_on_weekday : ℕ → Datetime → List ℕ → Try Datetime
next_on_weekday zero d weekdays = returned d
next_on_weekday (suc n) d weekdays = do
  e ← add_days 1 d
  let later = next_on_weekday n e weekdays
  if falls_on weekdays e then returned e else later

-- `weekdays` is None or a tuple; an empty tuple is false too.
unfoldable pub advance_weekly : Datetime → ℕ → Option (List ℕ) → Try Datetime
advance_weekly d interval none = add_days (7 * interval) d
advance_weekly d interval (some []) = add_days (7 * interval) d
advance_weekly d interval (some (w ∷ ws)) = next_on_weekday (7 * interval + 1) d (w ∷ ws)

-- `while month > 12`; a round takes 12 off `month`, so `month` rounds are enough.
unfoldable pub roll_months : ℕ → ℕ → ℕ → ℕ × ℕ
roll_months zero year month = (year, month)
roll_months (suc fuel) year month =
    let rolled = roll_months fuel (year + 1) (month - 12) in
    if ltb 12 month then rolled else (year, month)

-- `replace` raises ValueError past the last year.
unfoldable pub advance_monthly : Datetime → ℕ → Try Datetime
advance_monthly d interval =
    let (year, month) = roll_months (d.month + interval) d.year (d.month + interval) in
    let day = min d.day (days_in_month year month) in
    if ltb max_year year
    then raised
    else returned (record d { year = year; month = month; day = day })
