-- ===== src/Worker/Weeks/Tests.antt =====
-- Runs of the week numbers of internal/worker/briefing.go.
use classing_backend.Base.{◌≡◌, refl, string_eq, nat_eq, arith}
use classing_backend.Base.Int.{pos}
use classing_backend.Base.Dates.{Date, parse_date, day_number, format_date, weekday}
use classing_backend.Base.Decimal.{format_padded}
use classing_backend.Base.Text.{trim_space, to_upper, to_lower, equal_fold}
use classing_backend.Worker.Weeks.Semester.{day_name, semester_week}
use classing_backend.Worker.Weeks.{
  week_index, floor_div, week_of_week_based_year, parse_weekday, first_week_start, start_of_week,
  days_between,
}

abbrev leap_day : Date
leap_day = record { year = 2024; month = 2; day = 29 }

thursday : weekday (day_number leap_day) ≡ 4
unfolding day_number
thursday = refl

iso_week : week_of_week_based_year leap_day 1 ≡ 9
unfolding week_of_week_based_year first_week_start start_of_week day_number
iso_week = refl

-- The first of January 2021 belongs to the last week of 2020.
last_week : week_of_week_based_year (record { year = 2021; month = 1; day = 1 }) 1 ≡ 53
unfolding week_of_week_based_year first_week_start start_of_week day_number
last_week = refl

semester_second_week : week_index "semester" "2024-02-19" "monday" leap_day ≡ pos 2
unfolding week_index days_between floor_div start_of_week parse_date day_number equal_fold to_lower
    parse_weekday to_upper trim_space
semester_second_week = refl

before : week_index "semester" "2024-03-04" "monday" leap_day ≡ pos 0
unfolding week_index days_between floor_div start_of_week parse_date day_number equal_fold to_lower
    parse_weekday to_upper trim_space
before = refl

prints : format_date leap_day ≡ "2024-02-29"
unfolding format_date format_padded
prints = refl

first_year : week_of_week_based_year (record { year = 0; month = 1; day = 1 }) 1 ≡ 52
unfolding week_of_week_based_year first_week_start start_of_week day_number
first_year = refl

abbrev tuesday : Date
tuesday = record { year = 2024; month = 2; day = 20 }

abbrev monday : Date
monday = record { year = 2024; month = 2; day = 19 }

-- Thursday the 15th of February is in the week before the semester's first one.
abbrev thursday_before : Date
thursday_before = record { year = 2024; month = 2; day = 15 }

semester_week_example : week_index "semester" "2024-02-20" " monday" thursday_before ≡ pos 0
unfolding equal_fold to_lower parse_date day_number to_upper trim_space day_name
semester_week_example =
    semester_week "semester" "2024-02-20" " monday" thursday_before tuesday 1 (day_number monday) 0
      1 3 refl refl (omega arith) refl refl (omega arith) (omega arith) (omega arith) refl
      (omega arith) (omega arith)
