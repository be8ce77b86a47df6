-- ===== src/Worker/Weeks/Numbers.antt =====
-- What the numbers of the weeks mean.
use classing_backend.Base.{
  ℕ, ◌+◌, ◌-◌, ◌/◌, ◌≤◌, ◌<◌, ◌≡◌, refl, ◌∙◌, ap, sym, leb, ltb, if◌then◌else◌, arith, nat_eq,
  string_eq, inl, inr, Bool-cases,
}
use classing_backend.Base.Int.{pos, negsuc}
use classing_backend.Base.Dates.{Date, day_number, shifted, days_before_year, weekday}
use classing_backend.Worker.Weeks.{
  floor_div, start_of_week, first_week_start, week_of_week_based_year,
}

-- Division by the days of a week rounds down.
pub floor_div_week :
    (n : ℕ)
    → (floor_div (pos n) (pos 7) ≡ pos (n / 7)) × (floor_div (negsuc n) (pos 7) ≡ negsuc (n / 7))
unfolding floor_div
floor_div_week n = (ground arith, ground arith)

-- A week has seven days, the first of which is the day that weeks start on.
pub start_of_week_lem :
    (n start_day : ℕ)
    → start_day < 7
    → 6 ≤ n
    → (start_of_week n start_day ≤ n)
      × (n < start_of_week n start_day + 7)
      × (weekday (start_of_week n start_day) ≡ start_day)
unfolding start_of_week
start_of_week_lem n start_day h k = omega arith

-- The first week of a year is the one with the fourth of January in it.
first_week_start_lem :
    (year start_day : ℕ)
    → start_day < 7
    → 6 ≤ days_before_year year
    → let first = first_week_start year start_day in
      (first ≤ days_before_year year + 3)
      × (days_before_year year + 3 < first + 7)
      × (weekday first ≡ start_day)
unfolding first_week_start start_of_week
first_week_start_lem year start_day h k = ground arith

year_length :
    (year : ℕ)
    → (days_before_year year + 365 ≤ days_before_year (year + 1))
      × (days_before_year (year + 1) ≤ days_before_year year + 366)
year_length year = omega arith

pub year_begins : (year : ℕ) → 146097 ≤ days_before_year (shifted year)
year_begins year = omega arith

pub day_number-year : (date : Date) → days_before_year (shifted date.year) ≤ day_number date
unfolding day_number
day_number-year date = omega arith

-- The number of a week that starts on `w`, by the first weeks of the year before, of the year and of the
-- year after.
abbrev number_of_week : ℕ → ℕ → ℕ → ℕ → ℕ
number_of_week w previous first next =
    if ltb w first then (w - previous) / 7 + 1 else if leb next w then 1 else (w - first) / 7 + 1

-- All weeks start on one weekday, and a year has at most 53 of them.
number_of_week-le :
    (w previous first next : ℕ)
    → weekday w ≡ weekday first
    → weekday previous ≡ weekday first
    → weekday next ≡ weekday first
    → first ≤ previous + 372
    → next ≤ first + 372
    → number_of_week w previous first next ≤ 53
number_of_week-le w previous first next a b c d e = elim (Bool-cases (ltb w first)) [
  | inl t ↦ let lt : w < first = ground arith in rw t (omega arith)
  | inr t ↦ elim (Bool-cases (leb next w)) [
    | inl u ↦ rw (t, u) (omega arith)
    | inr u ↦ let lt : w < next = ground arith in rw (t, u) (omega arith)
  ]
]

year_before :
    (year : ℕ)
    → (days_before_year (shifted year - 1) + 365 ≤ days_before_year (shifted year))
      × (days_before_year (shifted year) ≤ days_before_year (shifted year - 1) + 366)
year_before year = omega arith

first_weeks_apart :
    (year next start_day : ℕ)
    → start_day < 7
    → 6 ≤ days_before_year year
    → next ≡ year + 1
    → (first_week_start next start_day ≤ first_week_start year start_day + 372)
      × (weekday (first_week_start next start_day) ≡ weekday (first_week_start year start_day))
first_weeks_apart year next start_day h k e =
    let l = year_length year in
    let l' : days_before_year next ≤ days_before_year year + 366 = rw e l.1 in
    let a = first_week_start_lem year start_day h k in
    let b = first_week_start_lem next start_day h (omega (arith, ap (λ y. days_before_year y) e)) in
    (omega (arith, l', a, b), b.2 ∙ sym a.2)

number_of_week-pos : (w previous first next : ℕ) → 1 ≤ number_of_week w previous first next
number_of_week-pos w previous first next = ground arith

-- A calendar week of a year has a number from 1 to 53, whichever of the seven days weeks start on, where
-- the first week of a year is the one with at least four of its days.
pub week_of_year_bounds :
    (date : Date) (start_day : ℕ)
    → start_day < 7
    → (1 ≤ week_of_week_based_year date start_day) × (week_of_week_based_year date start_day ≤ 53)
unfolding week_of_week_based_year
week_of_year_bounds date start_day h =
    let y = shifted date.year in
    let w = start_of_week (day_number date) start_day in
    let late = year_begins date.year in
    let apart =
      first_weeks_apart (y - 1) y start_day h (omega (arith, late, year_before date.year))
        (omega arith) in
    let apart' = first_weeks_apart y (y + 1) start_day h (omega (arith, late)) refl in
    let first = first_week_start y start_day in
    (
      number_of_week-pos w (first_week_start (y - 1) start_day) first
          (first_week_start (y + 1) start_day),
      number_of_week-le w (first_week_start (y - 1) start_day) first
          (first_week_start (y + 1) start_day)
          ((start_of_week_lem (day_number date) start_day h
              (omega (arith, late, day_number-year date))).2
            ∙ sym (first_week_start_lem y start_day h (omega (arith, late))).2)
          (sym apart.1) apart'.1 apart.0 apart'.0,
    )
