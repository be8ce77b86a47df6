-- ===== src/Worker/Lessons/Digest.antt =====
-- What the list of the lessons of a date promises.
use mathlib.Core.List.{map}
use classing_backend.Base.{
  ℕ, ◌≡◌, String, Bool, true, not, ◌||◌, List, [], ◌∷◌, arith, if◌then◌else◌, ◌==◌, string_eq, inl,
  inr, Bool-cases,
}
use classing_backend.Base.Int.{ℤ, pos, negsuc, add_ℤ, wrap64, leb_ℤ, ltb_ℤ}
use classing_backend.Base.Lists.{All}
use classing_backend.Base.Dates.{Date, format_date, day_number}
use classing_backend.Base.Order.{IsOrdered, All-order_by, coarse_order_by}
use classing_backend.Base.Table.{select_where}
use classing_backend.Base.Everywhere.{All-insert, All-select_where}
use classing_backend.Worker.Weeks.{weekday_number}
use classing_backend.Worker.Lessons.{
  BriefingLesson, BriefingException, BriefingSchedule, minute_or, normalize_lesson, remove_lesson,
  is_held, changed_lesson, completed_lesson, is_cancellation, is_addition, original_of,
  apply_exception, apply_exceptions, lesson_before, week_of, lessons_for_date,
}

-- The lesson ends after it starts, unless it starts less than 90 minutes before the greatest int64.
abbrev pub EndsLate : BriefingLesson → Type 0
EndsLate l =
    (ltb_ℤ (pos 9223372036854775717) l.start_minute || ltb_ℤ l.start_minute l.end_minute) ≡ true

repaired :
    (start end : ℤ)
    → (ltb_ℤ (pos 9223372036854775717) start
        || ltb_ℤ start (if leb_ℤ end start then wrap64 (add_ℤ start (pos 90)) else end))
      ≡ true
repaired (pos a) end = ground arith
repaired (negsuc a) end = ground arith

normalize-EndsLate : (l : BriefingLesson) → EndsLate (normalize_lesson l)
unfolding normalize_lesson
normalize-EndsLate l =
    repaired (minute_or l.start_minute l.start_time) (minute_or l.end_minute l.end_time)

normalized : (lessons : List BriefingLesson) → All EndsLate (map normalize_lesson lessons)
normalized [] = tt
normalized (l ∷ lessons) = (normalize-EndsLate l, normalized lessons)

apply_exception-EndsLate :
    (week : ℤ) (day : ℕ) (e : BriefingException) (lessons : List BriefingLesson)
    → All EndsLate lessons
    → All EndsLate (apply_exception week day e lessons)
unfolding apply_exception remove_lesson
apply_exception-EndsLate week day e lessons a =
    let left = if is_cancellation e then remove_lesson lessons e.lesson_id else lessons in
    let kept : All EndsLate left = elim (Bool-cases (is_cancellation e)) [
      | inl c ↦ rw c (All-select_where EndsLate (λ l. not (l.id == e.lesson_id)) lessons a)
      | inr c ↦ rw c a
    ] in
    let new = completed_lesson e (changed_lesson week day e (original_of e lessons)) in
    elim (Bool-cases (is_addition e)) [
      | inl c ↦ rw c (All-insert EndsLate left (normalize_lesson new) kept (normalize-EndsLate new))
      | inr c ↦ rw c kept
    ]

apply_exceptions-EndsLate :
    (week : ℤ) (day : ℕ) (date : String) (es : List BriefingException)
    (lessons : List BriefingLesson)
    → All EndsLate lessons
    → All EndsLate (apply_exceptions week day date es lessons)
unfolding apply_exceptions
apply_exceptions-EndsLate week day date [] lessons a = a
apply_exceptions-EndsLate week day date (e ∷ es) lessons a = elim (Bool-cases (e.date == date)) [
  | inl c ↦ rw c (
      apply_exceptions-EndsLate week day date es (apply_exception week day e lessons)
        (apply_exception-EndsLate week day e lessons a))
  | inr c ↦ rw c (apply_exceptions-EndsLate week day date es lessons a)
]

abbrev pub starts_before : BriefingLesson → BriefingLesson → Bool
starts_before l m = ltb_ℤ l.start_minute m.start_minute

-- The lessons of a date are listed in the order in which they start, and each ends after it starts, whatever
-- times the timetable and its exceptions give, unless it starts after the minute 9223372036854775717, which is
-- 90 minutes before the greatest int64.
pub lessons_for_date_lem :
    (s : BriefingSchedule) (date : Date)
    → IsOrdered starts_before (lessons_for_date s date)
      × All
          (λ l.
            (ltb_ℤ (pos 9223372036854775717) l.start_minute || ltb_ℤ l.start_minute l.end_minute)
            ≡ true)
          (lessons_for_date s date)
unfolding lessons_for_date
lessons_for_date_lem s date =
    let week = week_of s date in
    let day = weekday_number (day_number date) in
    let held = select_where (is_held week day) (map normalize_lesson s.lessons) in
    let lessons = apply_exceptions week day (format_date date) s.exceptions held in
    (
      coarse_order_by lesson_before starts_before (λ x y h. ground arith) (λ x y h. ground arith)
          (λ x y z h k. ground arith) lessons,
      All-order_by lesson_before EndsLate lessons (
          apply_exceptions-EndsLate week day (format_date date) s.exceptions held (
            All-select_where EndsLate (is_held week day) (map normalize_lesson s.lessons)
              (normalized s.lessons))),
    )
