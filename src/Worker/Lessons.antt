-- ===== src/Worker/Lessons.antt =====
-- internal/worker/briefing.go, the lessons of a date: those of the week's timetable, and what the
-- exceptions of the date make of them.
mod Tests
pub mod Cancelled
pub mod Digest
use mathlib.Core.List.{map}
use classing_backend.Base.{
  ℕ, ◌+◌, ◌*◌, String, Bool, true, false, not, ◌&&◌, ◌||◌, Option, none, some, List, [], ◌∷◌, ◌++◌,
  if◌then◌else◌, ◌==◌, nat_eq, string_eq,
}
use classing_backend.Base.Int.{ℤ, pos, add_ℤ, wrap64, leb_ℤ, ltb_ℤ, is_nat, is_even}
use classing_backend.Base.Dates.{Date, parse_clock, format_date, day_number}
use classing_backend.Base.Order.{order_by}
use classing_backend.Base.Table.{select_one, select_where}
use classing_backend.Base.Text.{trim_space, to_upper}
use classing_backend.Store.Events.{text_ltb}
use classing_backend.Worker.Weeks.{week_index, weekday_number}

pub record BriefingLesson : Type 0 where
  pub id : String
  pub title : String
  pub teacher : String
  pub location : String
  pub note : String
  pub day_of_week : ℤ
  pub start_minute : ℤ
  pub end_minute : ℤ
  pub start_time : String
  pub end_time : String
  pub start_week : ℤ
  pub end_week : ℤ
  pub week_parity : String

pub record BriefingException : Type 0 where
  pub id : String
  pub lesson_id : String
  pub exception_type : String
  pub date : String
  pub title : String
  pub teacher : String
  pub location : String
  pub note : String
  pub day_of_week : Option ℤ
  pub start_minute : Option ℤ
  pub end_minute : Option ℤ

pub record BriefingSchedule : Type 0 where
  pub lessons : List BriefingLesson
  pub exceptions : List BriefingException
  pub week_number_mode : String
  pub semester_week_start_date : String
  pub week_start_day : String

unfoldable pub parse_clock_minute : String → ℕ
parse_clock_minute value = elim (parse_clock (trim_space value)) [
  | none ↦ 0
  | some (hour, minute) ↦ hour * 60 + minute
]

abbrev pub minute_or : ℤ → String → ℤ
minute_or m clock = if is_nat m 0 && not (clock == "") then pos (parse_clock_minute clock) else m

-- An end that is not after the start is put 90 minutes after it, where the sum of two int64 wraps around.
unfoldable pub normalize_lesson : BriefingLesson → BriefingLesson
normalize_lesson l =
    let start = minute_or l.start_minute l.start_time in
    let end = minute_or l.end_minute l.end_time in
    let first = if ltb_ℤ l.start_week (pos 1) then pos 1 else l.start_week in
    record l {
      start_minute = start;
      end_minute = if leb_ℤ end start then wrap64 (add_ℤ start (pos 90)) else end;
      start_week = first;
      end_week = if ltb_ℤ l.end_week first then pos 30 else l.end_week;
      title = trim_space l.title;
    }

unfoldable pub remove_lesson : List BriefingLesson → String → List BriefingLesson
remove_lesson items lesson_id = select_where (λ l. not (l.id == lesson_id)) items

unfoldable pub non_blank : String → String → String
non_blank value fallback = if trim_space value == "" then fallback else value

-- Whether a lesson of the timetable takes place on a day of a week.
abbrev pub is_held : ℤ → ℕ → BriefingLesson → Bool
is_held week day l =
    not (l.title == "")
    && is_nat l.day_of_week day
    && not (ltb_ℤ week l.start_week)
    && not (ltb_ℤ l.end_week week)
    && not (to_upper l.week_parity == "ODD" && is_even week)
    && not (to_upper l.week_parity == "EVEN" && not (is_even week))

abbrev pub given_or : Option ℤ → ℤ → ℤ
given_or none n = n
given_or (some m) n = m

-- The lesson that an exception has changed, where it finds one.
abbrev pub changed_lesson : ℤ → ℕ → BriefingException → Option BriefingLesson → BriefingLesson
changed_lesson week day e none = record {
  id = e.lesson_id;
  title = e.title;
  teacher = e.teacher;
  location = e.location;
  note = e.note;
  day_of_week = pos day;
  start_minute = pos 0;
  end_minute = pos 0;
  start_time = "";
  end_time = "";
  start_week = week;
  end_week = week;
  week_parity = "ALL";
}
changed_lesson week day e (some original) = record original {
  title = non_blank e.title original.title;
  teacher = non_blank e.teacher original.teacher;
  location = non_blank e.location original.location;
  note = non_blank e.note original.note;
  day_of_week = pos day;
  start_week = week;
  end_week = week;
  week_parity = "ALL";
}

-- The times that the exception gives, and a title.
abbrev pub completed_lesson : BriefingException → BriefingLesson → BriefingLesson
completed_lesson e l = record l {
  day_of_week = given_or e.day_of_week l.day_of_week;
  start_minute = given_or e.start_minute l.start_minute;
  end_minute = given_or e.end_minute l.end_minute;
  title = if l.title == "" then "未命名课程" else l.title;
}

abbrev pub is_cancellation : BriefingException → Bool
is_cancellation e =
    not (e.lesson_id == "")
    && (to_upper e.exception_type == "CANCEL" || to_upper e.exception_type == "RESCHEDULE")

abbrev pub is_addition : BriefingException → Bool
is_addition e = to_upper e.exception_type == "RESCHEDULE" || to_upper e.exception_type == "MAKE_UP"

abbrev pub original_of : BriefingException → List BriefingLesson → Option BriefingLesson
original_of e lessons =
    if e.lesson_id == "" then none else select_one (λ l. l.id == e.lesson_id) lessons

pub apply_exception : ℤ → ℕ → BriefingException → List BriefingLesson → List BriefingLesson
apply_exception week day e lessons =
    let left = if is_cancellation e then remove_lesson lessons e.lesson_id else lessons in
    if is_addition e
    then left
      ++ normalize_lesson (completed_lesson e (changed_lesson week day e (original_of e lessons)))
        ∷ []
    else left

-- The exceptions of other dates are passed over.
pub apply_exceptions :
    ℤ → ℕ → String → List BriefingException → List BriefingLesson → List BriefingLesson
apply_exceptions week day date [] lessons = lessons
apply_exceptions week day date (e ∷ es) lessons =
    apply_exceptions week day date es
      (if e.date == date then apply_exception week day e lessons else lessons)

abbrev pub lesson_before : BriefingLesson → BriefingLesson → Bool
lesson_before l m =
    ltb_ℤ l.start_minute m.start_minute
    || (not (ltb_ℤ m.start_minute l.start_minute) && text_ltb l.title m.title)

abbrev pub week_of : BriefingSchedule → Date → ℤ
week_of s date = week_index s.week_number_mode s.semester_week_start_date s.week_start_day date

pub lessons_for_date : BriefingSchedule → Date → List BriefingLesson
lessons_for_date s date =
    let week = week_of s date in
    let day = weekday_number (day_number date) in
    order_by lesson_before (
      apply_exceptions week day (format_date date) s.exceptions
        (select_where (is_held week day) (map normalize_lesson s.lessons)))
