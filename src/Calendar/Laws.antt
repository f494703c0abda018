-- ===== src/Calendar/Laws.antt =====
-- Day arithmetic: one day later is the next ordinal, and dates stay dates.
use meetkai.Common.{
  ℕ, zero, suc, ◌+◌, ◌≤◌, ◌≡◌, refl, ◌∙◌, inl, inr, ltb, arith, Bool-cases, if◌then◌else◌,
}
use native.Mathlib.Numerals.{add-one}
use meetkai.Common.Try.{returned}
use meetkai.Calendar.{
  Datetime, IsDatetime, is_leap, days_in_month, days_before_year, days_before_month, ordinal,
  next_day, days_later, add_days, max_year,
}

abbrev leap_day : ℕ → ℕ
leap_day y = if is_leap y then 1 else 0

days_before_year-suc :
    (y : ℕ) → 1 ≤ y → days_before_year (y + 1) ≡ days_before_year y + 365 + leap_day y
unfolding days_before_year is_leap
days_before_year-suc y h = ground arith

december : (y : ℕ) → days_before_month y 12 + days_in_month y 12 ≡ 365 + leap_day y
unfolding days_before_month days_in_month
december y = ground arith

january : (y : ℕ) → days_before_month y 1 ≡ 0
unfolding days_before_month
january y = refl

days_before_month-suc :
    (y m : ℕ) → 1 ≤ m → days_before_month y (m + 1) ≡ days_before_month y m + days_in_month y m
unfolding days_before_month
days_before_month-suc y zero h = absurd (omega arith)
days_before_month-suc y (suc m) h = rw (add-one (suc m)) refl

-- The days before the first of a month.
abbrev pub month_start : ℕ → ℕ → ℕ
month_start y m = days_before_year y + days_before_month y m

pub month_start-next :
    (y m : ℕ) → 1 ≤ m → month_start y (m + 1) ≡ month_start y m + days_in_month y m
month_start-next y m h = omega (arith, days_before_month-suc y m h)

pub month_start-new_year :
    (y : ℕ) → 1 ≤ y → month_start (y + 1) 1 ≡ month_start y 12 + days_in_month y 12
month_start-new_year y h = omega (arith, days_before_year-suc y h, december y, january (y + 1))

-- One day later is the next ordinal, through month ends, year ends and leap days.
pub ordinal-next_day : (d : Datetime) → IsDatetime d → ordinal (next_day d) ≡ ordinal d + 1
unfolding ordinal next_day
ordinal-next_day d v = elim (Bool-cases (ltb d.day (days_in_month d.year d.month))) [
  | inl inside ↦ rw inside (omega arith)
  | inr last ↦ rw last (elim (Bool-cases (ltb d.month 12)) [
    | inl early ↦ rw early (ground (arith, days_before_month-suc d.year d.month))
    | inr late ↦
        rw late (ground (arith, days_before_year-suc d.year, december d.year, january (d.year + 1)))
  ])
]

pub days_in_month-bounds : (y m : ℕ) → (28 ≤ days_in_month y m) × (days_in_month y m ≤ 31)
unfolding days_in_month
days_in_month-bounds y m = ground arith

pub next_day-IsDatetime : (d : Datetime) → IsDatetime d → IsDatetime (next_day d)
unfolding next_day
next_day-IsDatetime d v = elim (Bool-cases (ltb d.day (days_in_month d.year d.month))) [
  | inl inside ↦ rw inside (ground arith)
  | inr last ↦ rw last (elim (Bool-cases (ltb d.month 12)) [
    | inl early ↦ rw early (ground (arith, days_in_month-bounds d.year (d.month + 1)))
    | inr late ↦ rw late (ground (arith, days_in_month-bounds (d.year + 1) 1))
  ])
]

pub time-next_day : (d : Datetime) → (next_day d).time ≡ d.time
unfolding next_day
time-next_day d = elim (Bool-cases (ltb d.day (days_in_month d.year d.month))) [
  | inl inside ↦ rw inside
  | inr last ↦
      rw last (elim (Bool-cases (ltb d.month 12)) [ inl early ↦ rw early | inr late ↦ rw late ])
]

-- What `n` days later means, for every `n`.
pub record IsLater (n : ℕ) (d e : Datetime) : Type 0 where
  pub days : ordinal e ≡ ordinal d + n
  pub same_time : e.time ≡ d.time
  pub is_datetime : IsDatetime e

pub days_later-IsLater : (n : ℕ) (d : Datetime) → IsDatetime d → IsLater n d (days_later n d)
unfolding days_later
days_later-IsLater zero d v = record { days = omega arith; same_time = refl; is_datetime = v }
days_later-IsLater (suc n) d v =
    let r : IsLater n (next_day d) (days_later n (next_day d)) =
      days_later-IsLater n (next_day d) (next_day-IsDatetime d v) in
    record {
      days = omega (arith, r.days, ordinal-next_day d v);
      same_time = r.same_time ∙ time-next_day d;
      is_datetime = r.is_datetime;
    }

-- A day offset that does not raise is the date that many ordinals later, at the same time of day,
-- in a year that `datetime` holds.
pub add_days-IsLater :
    (n : ℕ) (d e : Datetime)
    → IsDatetime d
    → add_days n d ≡ returned e
    → IsLater n d e × (e.year ≤ max_year)
unfolding add_days
add_days-IsLater n d e v h = elim (Bool-cases (ltb max_year (days_later n d).year)) [
  | inl far ↦ absurd (cc (rw far at h))
  | inr near ↦
      let same : days_later n d ≡ e = cc (rw near at h) in
      (rw (← same) (days_later-IsLater n d v), rw (← same) (ground arith))
]
