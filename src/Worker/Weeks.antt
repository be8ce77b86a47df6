-- ===== src/Worker/Weeks.antt =====
-- internal/worker/briefing.go, the number of the week of a date. A date is its day number where the code
-- computes with it.
mod Tests
pub mod Numbers
pub mod Semester
use classing_backend.Base.{
  ℕ, ◌+◌, ◌-◌, ◌/◌, ◌%◌, String, Bool, true, false, not, ◌&&◌, Option, none, some, List, [], ◌∷◌,
  leb, ltb, if◌then◌else◌, ◌==◌, nat_eq, string_eq,
}
use classing_backend.Base.Int.{ℤ, pos, negsuc, sub_ℕ, add_ℤ, is_negative, magnitude, negated, leb_ℤ}
use classing_backend.Base.Dates.{Date, parse_date, day_number, shifted, days_before_year, weekday}
use classing_backend.Base.Text.{trim_space, to_upper, equal_fold}

-- value / divisor, which Go rounds towards 0, and then the correction for a negative quotient.
abbrev pub same_sign : ℤ → ℤ → Bool
same_sign a b = if is_negative a then is_negative b else not (is_negative b)

unfoldable pub floor_div : ℤ → ℤ → ℤ
floor_div value divisor =
    let n = magnitude value / magnitude divisor in
    let quotient = if same_sign value divisor then pos n else negated n in
    if not (magnitude value % magnitude divisor == 0) && not (same_sign value divisor)
    then add_ℤ quotient (negsuc 0)
    else quotient

-- Weeks start on a weekday, where Sunday is 0.
unfoldable pub start_of_week : ℕ → ℕ → ℕ
start_of_week n start_day = n - (7 + weekday n - start_day) % 7

-- The first week of a (shifted) year has at least four days in it.
unfoldable pub first_week_start : ℕ → ℕ → ℕ
first_week_start year start_day =
    let jan1 = days_before_year year in
    let start = start_of_week jan1 start_day in
    if ltb (7 - (jan1 - start)) 4 then start + 7 else start

unfoldable pub week_of_week_based_year : Date → ℕ → ℕ
week_of_week_based_year date start_day =
    let week_start = start_of_week (day_number date) start_day in
    let first = first_week_start (shifted date.year) start_day in
    if ltb week_start first
    then (week_start - first_week_start (shifted date.year - 1) start_day) / 7 + 1
    else if leb (first_week_start (shifted date.year + 1) start_day) week_start
    then 1
    else (week_start - first) / 7 + 1

weekday_names : List (String × ℕ)
weekday_names =
    ("SUNDAY", 0)
    ∷ ("MONDAY", 1)
    ∷ ("TUESDAY", 2)
    ∷ ("WEDNESDAY", 3)
    ∷ ("THURSDAY", 4)
    ∷ ("FRIDAY", 5)
    ∷ ("SATURDAY", 6)
    ∷ []

find_weekday : String → List (String × ℕ) → Option ℕ
find_weekday name [] = none
find_weekday name ((n, day) ∷ names) = if n == name then some day else find_weekday name names

unfoldable pub parse_weekday : String → ℕ
unfolding weekday_names find_weekday
parse_weekday value = elim (find_weekday (to_upper (trim_space value)) weekday_names) [
  | none ↦ 1
  | some day ↦ day
]

unfoldable pub weekday_number : ℕ → ℕ
weekday_number n = if weekday n == 0 then 7 else weekday n

-- The longest time.Duration has 106751 whole days; a longer difference is cut to it.
abbrev pub max_days : ℕ
max_days = 106751

unfoldable pub days_between : ℕ → ℕ → ℤ
days_between n m =
    if leb m n
    then pos (if leb (n - m) max_days then n - m else max_days)
    else negated (if leb (m - n) max_days then m - n else max_days)

-- The mode of numbering, the first day of the semester and the first day of a week.
unfoldable pub week_index : String → String → String → Date → ℤ
week_index mode semester_start week_start_day date =
    let start_day = parse_weekday week_start_day in
    let natural = pos (week_of_week_based_year date start_day) in
    if equal_fold mode "SEMESTER"
    then (elim (parse_date semester_start) [
      | none ↦ natural
      | some anchor ↦
          add_ℤ
            (floor_div
              (days_between (day_number date) (start_of_week (day_number anchor) start_day))
              (pos 7))
            (pos 1)
    ])
    else natural
