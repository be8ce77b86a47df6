-- ===== src/Worker/Lessons/Tests.antt =====
-- Runs of the list of lessons of internal/worker/briefing.go.
use mathlib.Core.List.{map}
use classing_backend.Base.{◌≡◌, refl, String, true, ◌||◌, none, some, ◌∷◌, [], ◌==◌, string_eq}
use classing_backend.Base.Int.{ℤ, ltb_ℤ, pos, negsuc}
use classing_backend.Base.Lists.{All}
use classing_backend.Base.Dates.{parse_clock, format_date, day_number}
use classing_backend.Base.Decimal.{format_int, format_padded}
use classing_backend.Base.Order.{order_by, insert_by, IsOrdered}
use classing_backend.Base.Table.{count_where}
use classing_backend.Base.Text.{trim_space, to_upper, to_lower, equal_fold, char_of}
use classing_backend.Worker.Weeks.{
  week_index, week_of_week_based_year, first_week_start, start_of_week, parse_weekday,
  weekday_number,
}
use classing_backend.Worker.Lessons.{
  BriefingLesson, BriefingException, BriefingSchedule, parse_clock_minute, normalize_lesson,
  remove_lesson, non_blank, apply_exception, apply_exceptions, lessons_for_date,
}
use classing_backend.Worker.Fixtures.{leap_day, maths}
use classing_backend.Worker.Lessons.Digest.{starts_before, lessons_for_date_lem}
use classing_backend.Worker.Lessons.Cancelled.{cancelled_lesson_absent}

abbrev shown : BriefingLesson → String × ℤ × ℤ
shown l = (l.title, l.start_minute, l.end_minute)

abbrev art : BriefingLesson
art = record maths {
  id = "art";
  title = "Art";
  start_time = "8:00";
  end_time = "08:45";
  week_parity = "";
}

abbrev sport : BriefingLesson
sport = record art { id = "sport"; title = "Sport"; week_parity = "EVEN" }

abbrev exception : BriefingException
exception = record {
  id = "e";
  lesson_id = "art";
  exception_type = "cancel";
  date = "2024-02-29";
  title = "";
  teacher = "";
  location = "";
  note = "";
  day_of_week = none;
  start_minute = none;
  end_minute = none;
}

abbrev moved : BriefingException
moved = record exception {
  lesson_id = "maths";
  exception_type = "RESCHEDULE";
  start_minute = some (pos 480);
}

abbrev week : BriefingSchedule
week = record {
  lessons = maths ∷ art ∷ sport ∷ [];
  exceptions = [];
  week_number_mode = "NATURAL";
  semester_week_start_date = "";
  week_start_day = "MONDAY";
}

abbrev with_exceptions : BriefingSchedule
with_exceptions = record week { exceptions = exception ∷ moved ∷ [] }

listed :
    map shown (lessons_for_date week leap_day)
    ≡ ("Art", pos 480, pos 525) ∷ ("Maths", pos 605, pos 695) ∷ []
unfolding lessons_for_date week_index week_of_week_based_year first_week_start start_of_week
    parse_weekday weekday_number day_number equal_fold to_lower to_upper trim_space char_of order_by
    insert_by apply_exceptions normalize_lesson parse_clock_minute parse_clock format_date
    format_padded format_int
listed = refl

changed : map shown (lessons_for_date with_exceptions leap_day) ≡ ("Maths", pos 480, pos 695) ∷ []
unfolding lessons_for_date week_index week_of_week_based_year first_week_start start_of_week
    parse_weekday weekday_number day_number equal_fold to_lower to_upper trim_space char_of order_by
    insert_by apply_exceptions apply_exception remove_lesson non_blank normalize_lesson
    parse_clock_minute parse_clock format_date format_padded format_int
changed = refl

-- The sum wraps around.
wraps :
    (normalize_lesson (record maths { start_minute = pos 9223372036854775807 })).end_minute
    ≡ negsuc 9223372036854775718
unfolding normalize_lesson
wraps = refl

lessons_for_date_lem_example :
    IsOrdered starts_before (lessons_for_date with_exceptions leap_day)
    × All
        (λ l.
          (ltb_ℤ (pos 9223372036854775717) l.start_minute || ltb_ℤ l.start_minute l.end_minute)
          ≡ true)
        (lessons_for_date with_exceptions leap_day)
lessons_for_date_lem_example = lessons_for_date_lem with_exceptions leap_day

cancelled_lesson_absent_example :
    count_where (λ l. l.id == "art") (lessons_for_date with_exceptions leap_day) ≡ 0
unfolding format_date format_padded format_int char_of to_upper
cancelled_lesson_absent_example =
    cancelled_lesson_absent with_exceptions leap_day [] (moved ∷ []) exception refl refl refl refl
      (refl, tt)
