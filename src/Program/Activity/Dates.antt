-- ===== src/Program/Activity/Dates.antt =====
-- src/activity.rs, civil: the date of a line in the log file. Its day count is never negative, since
-- a time before 1970 counts as 0.
use oxutrm.Base.{
  ℕ, zero, suc, ◌+◌, ◌-◌, ◌*◌, ◌/◌, ◌%◌, ◌≤◌, ◌<◌, ◌≡◌, refl, sym, ap, ap₂, ◌∙◌, Bool-cases, ◌⊎◌,
  Bool, true, false, ◌&&◌, leb, ltb, ◌==◌, arith, inl, inr, if◌then◌else◌,
}

pub record Date : Type 0 where
  pub year : ℕ
  pub month : ℕ
  pub day : ℕ

abbrev yoe_of : ℕ → ℕ
yoe_of doe = (doe - doe / 1460 + doe / 36_524 - doe / 146_096) / 365

abbrev doy_of : ℕ → ℕ
doy_of doe = let yoe = yoe_of doe in doe - (365 * yoe + yoe / 4 - yoe / 100)

-- A day of the year that begins in March, as month and day.
abbrev date_of : ℕ → ℕ → Date
date_of year doy =
    let mp = (5 * doy + 2) / 153 in
    let m = (if ltb mp 10 then mp + 3 else mp - 9) in
    record {
      year = if leb m 2 then year + 1 else year;
      month = m;
      day = doy - (153 * mp + 2) / 5 + 1;
    }

abbrev era_day : ℕ → ℕ → Date
era_day era doe = date_of (yoe_of doe + era * 400) (doy_of doe)

unfoldable pub civil : ℕ → Date
civil days = let z = days + 719_468 in era_day (z / 146_097) (z % 146_097)

-- The Gregorian calendar, from day to day.
unfoldable pub is_leap : ℕ → Bool
is_leap year = year % 4 == 0 && (if year % 100 == 0 then year % 400 == 0 else true)

unfoldable pub month_days : ℕ → ℕ → ℕ
unfolding is_leap
month_days year month =
    if month == 2
    then (if is_leap year then 29 else 28)
    else if month == 4
    then 30
    else if month == 6
    then 30
    else if month == 9
    then 30
    else if month == 11
    then 30
    else 31

unfoldable pub next_day : Date → Date
unfolding month_days
next_day date =
    if ltb date.day (month_days date.year date.month)
    then record date { day = date.day + 1 }
    else if date.month == 12
    then record { year = date.year + 1; month = 1; day = 1 }
    else record date { month = date.month + 1; day = 1 }

unfoldable pub calendar : ℕ → Date
unfolding next_day
calendar zero = record { year = 1970; month = 1; day = 1 }
calendar (suc days) = next_day (calendar days)

day_follows : (year doy : ℕ) → doy < 364 → next_day (date_of year doy) ≡ date_of year (doy + 1)
unfolding next_day
day_follows year doy h = ground arith

leap_day_follows :
    (year : ℕ) → is_leap (year + 1) ≡ true → next_day (date_of year 364) ≡ date_of year 365
unfolding next_day
leap_day_follows year h = rw h refl

common_year_follows :
    (year : ℕ) → is_leap (year + 1) ≡ false → next_day (date_of year 364) ≡ date_of (year + 1) 0
unfolding next_day
common_year_follows year h = rw h refl

leap_year_follows : (year : ℕ) → next_day (date_of year 365) ≡ date_of (year + 1) 0
unfolding next_day
leap_year_follows year = ground arith

-- Of an era of 400 years.
day_same_year :
    (doe : ℕ)
    → doe < 146_096
    → doy_of doe < 364
    → (yoe_of (doe + 1) ≡ yoe_of doe) × (doy_of (doe + 1) ≡ doy_of doe + 1)
day_same_year doe h k = (omega arith, omega arith)

day_leap_year :
    (doe era : ℕ)
    → doe < 146_096
    → doy_of doe ≡ 364
    → is_leap (yoe_of doe + era * 400 + 1) ≡ true
    → (yoe_of (doe + 1) ≡ yoe_of doe) × (doy_of (doe + 1) ≡ 365)
unfolding is_leap
day_leap_year doe era h k l = ground arith

day_common_year :
    (doe era : ℕ)
    → doe < 146_096
    → doy_of doe ≡ 364
    → is_leap (yoe_of doe + era * 400 + 1) ≡ false
    → (yoe_of (doe + 1) ≡ yoe_of doe + 1) × (doy_of (doe + 1) ≡ 0)
unfolding is_leap
day_common_year doe era h k l = ground arith

day_last :
    (doe : ℕ)
    → doe < 146_096
    → doy_of doe ≡ 365
    → (yoe_of (doe + 1) ≡ yoe_of doe + 1) × (doy_of (doe + 1) ≡ 0)
day_last doe h k = (omega arith, omega arith)

doy_of_bound : (doe : ℕ) → doe < 146_097 → doy_of doe ≤ 365
doy_of_bound doe h = omega arith

doy_of_cases :
    (doe : ℕ) → doe < 146_097 → (doy_of doe < 364) ⊎ ((doy_of doe ≡ 364) ⊎ (doy_of doe ≡ 365))
doy_of_cases doe h = omega arith

year_turns :
    (era doe : ℕ)
    → (yoe_of (doe + 1) ≡ yoe_of doe + 1) × (doy_of (doe + 1) ≡ 0)
    → date_of (yoe_of doe + era * 400 + 1) 0 ≡ era_day era (doe + 1)
year_turns era doe (y, d) = ap₂ date_of (omega arith) (sym d)

era_day_follows : (era doe : ℕ) → doe < 146_096 → next_day (era_day era doe) ≡ era_day era (doe + 1)
era_day_follows era doe h = elim (doy_of_cases doe (omega arith)) [
  | inl k ↦
      day_follows (yoe_of doe + era * 400) (doy_of doe) k
      ∙ ap₂ (λ y d. date_of (y + era * 400) d) (sym (day_same_year doe h k).0)
          (sym (day_same_year doe h k).1)
  | inr (inl k) ↦ elim (Bool-cases (is_leap (yoe_of doe + era * 400 + 1))) [
    | inl l ↦
        ap (λ d. next_day (date_of (yoe_of doe + era * 400) d)) k
        ∙ leap_day_follows (yoe_of doe + era * 400) l
        ∙ ap₂ (λ y d. date_of (y + era * 400) d) (sym (day_leap_year doe era h k l).0)
            (sym (day_leap_year doe era h k l).1)
    | inr l ↦
        ap (λ d. next_day (date_of (yoe_of doe + era * 400) d)) k
        ∙ common_year_follows (yoe_of doe + era * 400) l
        ∙ year_turns era doe (day_common_year doe era h k l)
  ]
  | inr (inr k) ↦
      ap (λ d. next_day (date_of (yoe_of doe + era * 400) d)) k
      ∙ leap_year_follows (yoe_of doe + era * 400)
      ∙ year_turns era doe (day_last doe h k)
]

era_follows : (era : ℕ) → next_day (era_day era 146_096) ≡ era_day (era + 1) 0
era_follows era = leap_year_follows (399 + era * 400) ∙ ap (λ y. date_of y 0) (omega arith)

era_cases : (z : ℕ) → (z % 146_097 < 146_096) ⊎ (z % 146_097 ≡ 146_096)
era_cases z = omega arith

civil_at :
    (days era doe : ℕ)
    → era ≡ (days + 719_468) / 146_097
    → doe ≡ (days + 719_468) % 146_097
    → era_day era doe ≡ civil days
unfolding civil
civil_at days era doe e d = ap₂ era_day e d

civil_follows : (days : ℕ) → next_day (civil days) ≡ civil (suc days)
unfolding civil
civil_follows days = elim (era_cases (days + 719_468)) [
  | inl h ↦
      era_day_follows ((days + 719_468) / 146_097) ((days + 719_468) % 146_097) h
      ∙ civil_at (suc days) ((days + 719_468) / 146_097) ((days + 719_468) % 146_097 + 1)
          (omega arith) (omega arith)
  | inr h ↦
      ap (λ doe. next_day (era_day ((days + 719_468) / 146_097) doe)) h
      ∙ era_follows ((days + 719_468) / 146_097)
      ∙ civil_at (suc days) ((days + 719_468) / 146_097 + 1) 0 (omega arith) (omega arith)
]

-- For every day from 1970-01-01 on: the date that the log gives for it is the one that the Gregorian calendar, gone through day by day
-- from 1970-01-01, comes to.
pub civil-calendar : (days : ℕ) → civil days ≡ calendar days
unfolding civil calendar
civil-calendar zero = refl
civil-calendar (suc days) = sym (civil_follows days) ∙ ap next_day (civil-calendar days)
