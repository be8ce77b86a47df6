-- ===== src/Worker/Weeks/Semester.antt =====
-- The weeks of a semester are numbered from its first day, forwards and backwards.
use classing_backend.Base.{
  ℕ, zero, suc, ◌+◌, ◌-◌, ◌*◌, ◌/◌, ◌≤◌, ◌<◌, ◌≡◌, ◌∙◌, ap, String, true, none, some, leb, arith,
  nat_eq, string_eq, inl, inr, Bool-cases,
}
use classing_backend.Base.Int.{pos, negsuc, add_ℤ, sub_ℕ}
use classing_backend.Base.Dates.{Date, parse_date, day_number, weekday}
use classing_backend.Base.Text.{equal_fold, trim_space, to_upper}
use classing_backend.Worker.Weeks.{
  floor_div, start_of_week, parse_weekday, find_weekday, weekday_names, days_between, max_days,
  week_index,
}
use classing_backend.Worker.Weeks.Numbers.{
  floor_div_week, start_of_week_lem, year_begins, day_number-year,
}

-- The weekdays in the order of the calendar, where Sunday is day 0.
unfoldable pub day_name : ℕ → String
day_name zero = "SUNDAY"
day_name (suc zero) = "MONDAY"
day_name (suc (suc zero)) = "TUESDAY"
day_name (suc (suc (suc zero))) = "WEDNESDAY"
day_name (suc (suc (suc (suc zero)))) = "THURSDAY"
day_name (suc (suc (suc (suc (suc zero))))) = "FRIDAY"
day_name _ = "SATURDAY"

index_of : String → ℕ
unfolding find_weekday weekday_names
index_of name = elim (find_weekday name weekday_names) [ none ↦ 1 | some day ↦ day ]

parse_weekday-day_name :
    (value : String) (w : ℕ)
    → w < 7
    → to_upper (trim_space value) ≡ day_name w
    → parse_weekday value ≡ w
unfolding parse_weekday day_name find_weekday weekday_names index_of
parse_weekday-day_name value zero h e = ap index_of e
parse_weekday-day_name value (suc zero) h e = ap index_of e
parse_weekday-day_name value (suc (suc zero)) h e = ap index_of e
parse_weekday-day_name value (suc (suc (suc zero))) h e = ap index_of e
parse_weekday-day_name value (suc (suc (suc (suc zero)))) h e = ap index_of e
parse_weekday-day_name value (suc (suc (suc (suc (suc zero))))) h e = ap index_of e
parse_weekday-day_name value (suc (suc (suc (suc (suc (suc zero)))))) h e = ap index_of e
parse_weekday-day_name value (suc (suc (suc (suc (suc (suc (suc n))))))) h e =
    absurd (omega (arith, h))

-- The only day with the weekday in the week up to a day.
week_begins :
    (n s w : ℕ) → w < 7 → 6 ≤ n → s ≤ n → n < s + 7 → weekday s ≡ w → start_of_week n w ≡ s
week_begins n s w h k below above at =
    let l = start_of_week_lem n w h k in omega (arith, l, below, above, at)

after_first : (r k m : ℕ) → r + m ≡ k → add_ℤ (pos r) (pos 1) ≡ sub_ℕ (k + 1) m
after_first r k m e = ground arith

before_first : (r k m : ℕ) → r + 1 + k ≡ m → add_ℤ (negsuc r) (pos 1) ≡ sub_ℕ (k + 1) m
before_first r k m e = ground arith

-- The number of the week of a day `n`, which is `j` days after the first day of the week that begins k - m
-- weeks after the day `s`.
number_from :
    (n s k m j : ℕ)
    → j < 7
    → n + 7 * m ≡ s + (7 * k + j)
    → n ≤ s + max_days
    → s ≤ n + max_days
    → add_ℤ (floor_div (days_between n s) (pos 7)) (pos 1) ≡ sub_ℕ (k + 1) m
unfolding days_between
number_from n s k m j lt at late early = elim (Bool-cases (leb s n)) [
  | inl e ↦
      let q = n - s in
      let between : days_between n s ≡ pos q = ground arith in
      let below : s ≤ n = ground arith in
      ap (λ z. add_ℤ (floor_div z (pos 7)) (pos 1)) between
      ∙ ap (λ z. add_ℤ z (pos 1)) (floor_div_week q).0
      ∙ after_first (q / 7) k m (omega (arith, lt, at, below))
  | inr e ↦
      let p = s - n - 1 in
      let above : n < s = ground arith in
      let between : days_between n s ≡ negsuc p = ground arith in
      ap (λ z. add_ℤ (floor_div z (pos 7)) (pos 1)) between
      ∙ ap (λ z. add_ℤ z (pos 1)) (floor_div_week p).1
      ∙ before_first (p / 7) k m (omega (arith, lt, at, above))
]

-- In the mode SEMESTER, in any case of letters, weeks are numbered from the week of the first day of the
-- semester, which has number 1: where weeks start on the weekday `w`, by its English name in any case and
-- with any margins, `s` is the day with this weekday among the first day of the semester and the six days
-- before it, and a date is j days, j < 7, after the first day of the week that begins k - m weeks after s,
-- the week of the date has number k + 1 - m, which is not positive before the semester. The start of the
-- semester parses, and the days from s to the date fit into a time.Duration of Go (at most 106751).
pub semester_week :
    (mode semester_start week_start_day : String) (date anchor : Date) (w s k m j : ℕ)
    → equal_fold mode "SEMESTER" ≡ true
    → parse_date semester_start ≡ some anchor
    → w < 7
    → to_upper (trim_space week_start_day) ≡ day_name w
    → weekday s ≡ w
    → s ≤ day_number anchor
    → day_number anchor < s + 7
    → j < 7
    → day_number date + 7 * m ≡ s + (7 * k + j)
    → day_number date ≤ s + 106751
    → s ≤ day_number date + 106751
    → week_index mode semester_start week_start_day date ≡ sub_ℕ (k + 1) m
unfolding week_index
semester_week mode semester_start week_start_day date anchor w s k m j mode_is start h named at
      below above lt days late early =
    let day : parse_weekday week_start_day ≡ w = parse_weekday-day_name week_start_day w h named in
    let first : start_of_week (day_number anchor) (parse_weekday week_start_day) ≡ s =
      ap (start_of_week (day_number anchor)) day
      ∙ week_begins (day_number anchor) s w h
          (omega (arith, year_begins anchor.year, day_number-year anchor)) below above at in
    let number =
      ap (λ x. add_ℤ (floor_div (days_between (day_number date) x) (pos 7)) (pos 1)) first
      ∙ number_from (day_number date) s k m j lt days late early in
    ground (arith, number)
