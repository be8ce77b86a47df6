-- ===== src/Base/Dates.antt =====
-- The parts of Go's package time that the program calls on dates without a time of day: the layouts
-- 2006-01-02 and 15:04, the length of a month, and days counted in the Gregorian calendar.
use Prim.Native.Char.{code}
use Prim.Native.String.{◌++◌ as concat}
use classing_backend.Base.Tests.{ltb, leb, if◌then◌else◌, ◌==◌, nat_eq, string_eq}
use classing_backend.Base.Decimal.{format_padded}
use classing_backend.Base.Options.{◌>>=◌, ◌>>◌, guard}
use Prim.Native.Nat.{ℕ, zero, suc, ◌+◌, ◌-◌, ◌*◌, ◌/◌, ◌%◌}
use Prim.Native.String.{String}
use mathlib.Core.Bool.{Bool, not, ◌&&◌, ◌||◌}
use mathlib.Core.Option.{Option, none, some}

pub record Date : Type 0 where
  pub year : ℕ
  pub month : ℕ
  pub day : ℕ

abbrev pub is_leap : ℕ → Bool
is_leap y = y % 4 == 0 && (not (y % 100 == 0) || y % 400 == 0)

-- The days of a month, and of the months before it, in a year.
abbrev pub days_in : ℕ → ℕ → ℕ
days_in y m =
    if m == 2
    then (if is_leap y then 29 else 28)
    else if m == 4 || m == 6 || m == 9 || m == 11
    then 30
    else 31

abbrev pub is_valid_date : Date → Bool
is_valid_date d =
    leb 1 d.month && leb d.month 12 && leb 1 d.day && leb d.day (days_in d.year d.month)

-- One digit, and a number of two.
digit_at : String → Option (ℕ × String)
digit_at String.[] = none
digit_at (String.◌∷◌ c s) =
    if leb b'0' (code c) && leb (code c) b'9' then some (code c - b'0', s) else none

mark_at : ℕ → String → Option String
mark_at mark String.[] = none
mark_at mark (String.◌∷◌ c s) = if code c == mark then some s else none

two_digits : String → Option (ℕ × String)
unfolding digit_at
two_digits s = do (a, s₁) ← digit_at s; (b, s₂) ← digit_at s₁; some (a * 10 + b, s₂)

-- time.Parse("2006-01-02", s)
unfoldable pub parse_date : String → Option Date
unfolding two_digits mark_at
parse_date s = do
  (century, s₁) ← two_digits s
  (year, s₂) ← two_digits s₁
  s₃ ← mark_at b'-' s₂
  (month, s₄) ← two_digits s₃
  s₅ ← mark_at b'-' s₄
  (day, rest) ← two_digits s₅
  guard (rest == "")
  let date : Date = record { year = century * 100 + year; month = month; day = day }
  guard (is_valid_date date)
  some date

-- The hour of the layout 15:04 has one digit or two.
hour_at : String → Option (ℕ × String)
unfolding digit_at
hour_at s = do
  (a, s₁) ← digit_at s
  elim (digit_at s₁) [ none ↦ some (a, s₁) | some (b, s₂) ↦ some (a * 10 + b, s₂) ]

-- time.Parse("15:04", s): the hour and the minute
unfoldable pub parse_clock : String → Option (ℕ × ℕ)
unfolding two_digits hour_at mark_at
parse_clock s = do
  (hour, s₁) ← hour_at s
  s₂ ← mark_at b':' s₁
  (minute, rest) ← two_digits s₂
  guard (rest == "" && ltb hour 24 && ltb minute 60)
  some (hour, minute)

-- Format("2006-01-02")
unfoldable pub format_date : Date → String
format_date d =
    concat (format_padded 4 d.year)
      (concat "-" (concat (format_padded 2 d.month) (concat "-" (format_padded 2 d.day))))

-- The years are shifted by 400, after which the calendar repeats: 400 years are a whole number of weeks,
-- and no year that is computed with is below 0.
abbrev pub shifted : ℕ → ℕ
shifted year = year + 400

-- The days of the years 0 to y - 1, and of the first months of a year.
abbrev pub days_before_year : ℕ → ℕ
days_before_year y = 365 * y + (y + 3) / 4 - (y + 99) / 100 + (y + 399) / 400

days_through : ℕ → ℕ → ℕ
days_through y zero = 0
days_through y (suc m) = days_through y m + days_in y (suc m)

-- The number of a day, counted from the first of January of the shifted year 0.
unfoldable pub day_number : Date → ℕ
unfolding days_through
day_number d = days_before_year (shifted d.year) + days_through d.year (d.month - 1) + (d.day - 1)

-- Weekday(): Sunday is 0.
abbrev pub weekday : ℕ → ℕ
weekday n = (n + 6) % 7
