-- ===== src/Recurrence/Weekly.antt =====
-- Weekly recurrence on listed weekdays.
use meetkai.Common.{
  ℕ, zero, suc, ◌+◌, ◌-◌, ◌*◌, ◌%◌, ◌≤◌, ◌<◌, ◌≡◌, refl, ap, ◌∙◌, inl, inr, ◌⊎◌, Bool, true, false,
  Option, none, some, List, [], ◌∷◌, arith, any, ◌==◌, ltb, Bool-cases, ltb→lt,
}
use native.Mathlib.Decide.{dec_lt}
use native.Mathlib.Nat.{suc-add}
use meetkai.Common.Try.{returned, >>=-eq-returned}
use meetkai.Calendar.{Datetime, IsDatetime, ordinal, add_days}
use meetkai.Calendar.Laws.{IsLater, add_days-IsLater}
use meetkai.Recurrence.{falls_on, next_on_weekday, advance_weekly}

-- Whether the day with that ordinal falls on a listed weekday.
abbrev pub listed_at : List ℕ → ℕ → Bool
listed_at weekdays o = any (λ w. w == (o + 6) % 7) weekdays

-- `e` is the first day after `d`, at the same time of day, that falls on a listed weekday.
pub record IsFirstListed (weekdays : List ℕ) (d e : Datetime) : Type 0 where
  pub after : ordinal d < ordinal e
  pub soon : ordinal e ≤ ordinal d + 7
  pub same_time : e.time ≡ d.time
  pub is_datetime : IsDatetime e
  pub listed : listed_at weekdays (ordinal e) ≡ true
  pub skipped : (o : ℕ) → ordinal d < o → o < ordinal e → listed_at weekdays o ≡ false

-- What `n` rounds of the loop have walked over.
record Walk (n : ℕ) (weekdays : List ℕ) (d e : Datetime) : Type 0 where
  steps : ℕ
  days : ordinal e ≡ ordinal d + steps
  same_time : e.time ≡ d.time
  is_datetime : IsDatetime e
  capped : steps ≤ n
  moved : (n ≡ 0) ⊎ (1 ≤ steps)
  ended : (steps ≡ n) ⊎ (listed_at weekdays (ordinal e) ≡ true)
  skipped : (o : ℕ) → ordinal d < o → o < ordinal d + steps → listed_at weekdays o ≡ false

Walk-hit :
    (n : ℕ) (weekdays : List ℕ) (d e : Datetime)
    → IsLater 1 d e
    → listed_at weekdays (ordinal e) ≡ true
    → Walk (suc n) weekdays d e
Walk-hit n weekdays d e r hit = record {
  steps = 1;
  days = r.days;
  same_time = r.same_time;
  is_datetime = r.is_datetime;
  capped = omega arith;
  moved = inr (omega arith);
  ended = inr hit;
  skipped = λ o a b. absurd (omega arith);
}

Walk-miss :
    (n : ℕ) (weekdays : List ℕ) (d e f : Datetime)
    → IsLater 1 d e
    → listed_at weekdays (ordinal e) ≡ false
    → Walk n weekdays e f
    → Walk (suc n) weekdays d f
Walk-miss n weekdays d e f r miss walk = record {
  steps = suc walk.steps;
  days = omega (arith, r.days, walk.days);
  same_time = walk.same_time ∙ r.same_time;
  is_datetime = walk.is_datetime;
  capped = omega (arith, walk.capped);
  moved = inr (omega arith);
  ended = ended walk.ended;
  skipped = λ o a b. before o a b (dec_lt (ordinal e) o);
}
  where
    ended :
        (walk.steps ≡ n) ⊎ (listed_at weekdays (ordinal f) ≡ true)
        → (suc walk.steps ≡ suc n) ⊎ (listed_at weekdays (ordinal f) ≡ true)
    ended (inl same) = inl (ap suc same)
    ended (inr hit) = inr hit

    before :
        (o : ℕ)
        → ordinal d < o
        → o < ordinal d + suc walk.steps
        → Dec (ordinal e < o)
        → listed_at weekdays o ≡ false
    before o a b (yes later) = walk.skipped o later (omega (arith, r.days))
    before o a b (no here) = let same : o ≡ ordinal e = omega (arith, r.days) in rw same miss

next_on_weekday-Walk :
    (n : ℕ) (weekdays : List ℕ) (d e : Datetime)
    → IsDatetime d
    → next_on_weekday n d weekdays ≡ returned e
    → Walk n weekdays d e
unfolding next_on_weekday falls_on
next_on_weekday-Walk zero weekdays d e v h =
    let same : d ≡ e = cc h in
    rw (← same) (record {
      steps = 0;
      days = omega arith;
      same_time = refl;
      is_datetime = v;
      capped = omega arith;
      moved = inl refl;
      ended = inl refl;
      skipped = λ o a b. absurd (omega arith);
    })
next_on_weekday-Walk (suc n) weekdays d e v h =
    let (day, added, rest) = >>=-eq-returned (add_days 1 d) _ h in
    let r : IsLater 1 d day = (add_days-IsLater 1 d day v added).0 in
    elim (Bool-cases (listed_at weekdays (ordinal day))) [
      | inl hit ↦
          let same : day ≡ e = cc (rw hit at rest) in rw (← same) (Walk-hit n weekdays d day r hit)
      | inr miss ↦
          Walk-miss n weekdays d day e r miss
            (next_on_weekday-Walk n weekdays day e r.is_datetime (rw miss at rest))
    ]

-- A listed number below 7 is the weekday of one of any seven days in a row.
listed_weekday :
    (weekdays : List ℕ) (b : ℕ)
    → any (λ w. ltb w 7) weekdays ≡ true
    → (o : ℕ) × (b < o) × (o ≤ b + 7) × (listed_at weekdays o ≡ true)
listed_weekday [] b h = cc h
listed_weekday (w ∷ ws) b h = elim (Bool-cases (ltb w 7)) [
  | inl small ↦ (
    b + 1 + (w + 7 - b % 7) % 7,
    omega arith,
    omega arith,
    let here : w ≡ (b + 1 + (w + 7 - b % 7) % 7 + 6) % 7 = omega (arith, ltb→lt w 7 small) in
        ground (arith, here),
  )
  | inr large ↦
      let (o, after, soon, hit) = listed_weekday ws b (rw large at h) in
      (o, after, soon, ground arith)
]

-- With a weekday from Monday 0 to Sunday 6 among the listed ones, and any interval from 1 on, an
-- `advance_weekly` that returns gives the first later day on a listed weekday, at the same time of
-- day: the interval, which is meant as the step in weeks, has no effect then.
pub advance_weekly-IsFirstListed :
    (d e : Datetime) (interval w : ℕ) (ws : List ℕ)
    → IsDatetime d
    → 1 ≤ interval
    → any (λ x. ltb x 7) (w ∷ ws) ≡ true
    → advance_weekly d interval (some (w ∷ ws)) ≡ returned e
    → IsFirstListed (w ∷ ws) d e
unfolding advance_weekly
advance_weekly-IsFirstListed d e interval w ws v pos proper h =
    let walk = next_on_weekday-Walk (7 * interval + 1) (w ∷ ws) d e v h in
    let (o, after, soon, hit) = listed_weekday (w ∷ ws) (ordinal d) proper in
    elim (dec_lt 7 walk.steps) [
      | yes long ↦ absurd (cc (hit, walk.skipped o after (omega (arith, soon))))
      | no short ↦ record {
        after = omega (arith, walk.days, walk.moved);
        soon = omega (arith, walk.days);
        same_time = walk.same_time;
        is_datetime = walk.is_datetime;
        listed = elim walk.ended [
          | inl all ↦ absurd (omega (arith, all))
          | inr yes_listed ↦ yes_listed
        ];
        skipped = λ o a b. walk.skipped o a (omega (arith, walk.days));
      }
    ]

-- The stop does not depend on the step: with a listed weekday, every interval gives what interval 1
-- gives.
more_rounds :
    (n k : ℕ) (weekdays : List ℕ) (d e : Datetime)
    → next_on_weekday (suc n) d weekdays ≡ returned e
    → listed_at weekdays (ordinal e) ≡ true
    → next_on_weekday (suc n + k) d weekdays ≡ returned e
unfolding next_on_weekday falls_on
more_rounds zero k weekdays d e h hit =
    let (day, added, rest) = >>=-eq-returned (add_days 1 d) _ h in
    elim (Bool-cases (listed_at weekdays (ordinal day))) [
      | inl found ↦ rw (suc-add zero k, added, found) (rw found at rest)
      | inr miss ↦ absurd (cc (miss, hit, rw miss at rest))
    ]
more_rounds (suc n) k weekdays d e h hit =
    let (day, added, rest) = >>=-eq-returned (add_days 1 d) _ h in
    elim (Bool-cases (listed_at weekdays (ordinal day))) [
      | inl found ↦ rw (suc-add (suc n) k, added, found) (rw found at rest)
      | inr miss ↦
          rw (suc-add (suc n) k, added, miss) (more_rounds n k weekdays day e (rw miss at rest) hit)
    ]

-- The step has no effect on listed weekdays: where interval 1 returns a time, every interval
-- returns the same time.
pub advance_weekly-any_interval :
    (d e : Datetime) (interval w : ℕ) (ws : List ℕ)
    → IsDatetime d
    → 1 ≤ interval
    → any (λ x. ltb x 7) (w ∷ ws) ≡ true
    → advance_weekly d 1 (some (w ∷ ws)) ≡ returned e
    → advance_weekly d interval (some (w ∷ ws)) ≡ returned e
unfolding advance_weekly
advance_weekly-any_interval d e interval w ws v pos proper h =
    let first = advance_weekly-IsFirstListed d e 1 w ws v (omega arith) proper h in
    let more : 7 * interval + 1 ≡ 8 + (7 * interval - 7) = omega arith in
    rw more (more_rounds 7 (7 * interval - 7) (w ∷ ws) d e h first.listed)

-- Whatever the weekdays, the weekly occurrence is a later day at the same time of day.
pub advance_weekly-later :
    (d e : Datetime) (interval : ℕ) (weekdays : Option (List ℕ))
    → IsDatetime d
    → 1 ≤ interval
    → advance_weekly d interval weekdays ≡ returned e
    → (ordinal d < ordinal e) × (e.time ≡ d.time) × IsDatetime e
unfolding advance_weekly
advance_weekly-later d e interval none v pos h =
    let later = (add_days-IsLater (7 * interval) d e v h).0 in
    (omega (arith, later.days), later.same_time, later.is_datetime)
advance_weekly-later d e interval (some []) v pos h =
    let later = (add_days-IsLater (7 * interval) d e v h).0 in
    (omega (arith, later.days), later.same_time, later.is_datetime)
advance_weekly-later d e interval (some (w ∷ ws)) v pos h =
    let walk = next_on_weekday-Walk (7 * interval + 1) (w ∷ ws) d e v h in
    (omega (arith, walk.days, walk.moved), walk.same_time, walk.is_datetime)
