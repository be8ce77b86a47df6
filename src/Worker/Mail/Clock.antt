-- ===== src/Worker/Mail/Clock.antt =====
-- The times of day that a digest shows are read back as they were.
use classing_backend.Base.{
  ℕ, zero, suc, ◌<◌, ◌≡◌, refl, Bool, true, ◌&&◌, arith, ◌==◌, nat_eq, inl, inr, Bool-cases,
  eq_of_beq, string_eq,
}
use classing_backend.Base.Int.{pos}
use classing_backend.Base.Dates.{parse_clock}
use classing_backend.Base.Decimal.{format_int, format_padded}
use classing_backend.Base.Text.{char_of, trim_space}
use classing_backend.Worker.Lessons.{parse_clock_minute}
use classing_backend.Worker.Mail.{format_minute}

-- Whether a test holds for the numbers below `n`.
unfoldable pub all_below : ℕ → (ℕ → Bool) → Bool
all_below zero p = true
all_below (suc n) p = let rest = all_below n p in p n && rest

pub all_below_holds : (n : ℕ) (p : ℕ → Bool) (m : ℕ) → all_below n p ≡ true → m < n → p m ≡ true
unfolding all_below
all_below_holds zero p m h lt = absurd (omega (arith, lt))
all_below_holds (suc n) p m h lt = elim (Bool-cases (m == n)) [
  | inl e ↦ let same : m ≡ n = ground arith in rw same (ground arith)
  | inr e ↦ all_below_holds n p m (ground arith) (ground arith)
]

each_minute : all_below 1440 (λ m. parse_clock_minute (format_minute (pos m)) == m) ≡ true
unfolding all_below parse_clock_minute parse_clock format_minute format_padded format_int char_of
    trim_space
each_minute = refl

-- A minute of the day, below 1440, is printed as a time that is read as the same minute
pub parse_clock_minute-format_minute :
    (m : ℕ) → m < 1440 → parse_clock_minute (format_minute (pos m)) ≡ m
parse_clock_minute-format_minute m lt =
    eq_of_beq (parse_clock_minute (format_minute (pos m))) m
      (all_below_holds 1440 (λ m. parse_clock_minute (format_minute (pos m)) == m) m each_minute lt)
