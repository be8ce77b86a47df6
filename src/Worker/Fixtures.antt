-- ===== src/Worker/Fixtures.antt =====
-- A day and a lesson for the runs of internal/worker.
use classing_backend.Base.Int.{pos}
use classing_backend.Base.Dates.{Date}
use classing_backend.Worker.Lessons.{BriefingLesson}

-- A Thursday, in week 9.
abbrev pub leap_day : Date
leap_day = record { year = 2024; month = 2; day = 29 }

abbrev pub maths : BriefingLesson
maths = record {
  id = "maths";
  title = " Maths ";
  teacher = "T";
  location = "R1";
  note = "";
  day_of_week = pos 4;
  start_minute = pos 0;
  end_minute = pos 0;
  start_time = "10:05";
  end_time = "";
  start_week = pos 0;
  end_week = pos 0;
  week_parity = "odd";
}
