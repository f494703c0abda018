-- ===== src/Calendar/Range.antt =====
-- Times far from the last year: offsets from them do not raise.
use meetkai.Common.{ℕ, zero, suc, ◌+◌, ◌≤◌, ◌≡◌, false, arith, ltb}
use meetkai.Common.Try.{returned}
use meetkai.Calendar.{Datetime, next_day, days_later, add_days, max_year}

year-next_day : (d : Datetime) → (next_day d).year ≤ d.year + 1
unfolding next_day
year-next_day d = ground arith

pub year-days_later : (n : ℕ) (d : Datetime) → (days_later n d).year ≤ d.year + n
unfolding days_later
year-days_later zero d = omega arith
year-days_later (suc n) d = omega (arith, year-days_later n (next_day d), year-next_day d)

pub add_days-returns :
    (n : ℕ) (d : Datetime) → d.year + n ≤ max_year → add_days n d ≡ returned (days_later n d)
unfolding add_days
add_days-returns n d near =
    let small : ltb max_year (days_later n d).year ≡ false = ground (arith, year-days_later n d) in
    rw small
