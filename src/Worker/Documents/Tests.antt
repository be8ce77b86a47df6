-- ===== src/Worker/Documents/Tests.antt =====
-- Runs of the reading of documents of internal/worker/briefing.go.
use classing_backend.Base.{
  ◌≡◌, refl, String, Option, none, some, ◌∷◌, [], if◌then◌else◌, ◌==◌, string_eq,
}
use classing_backend.Base.Json.{Json, text}
use classing_backend.Base.Text.{trim_space}
use classing_backend.Store.ContentRows.{BriefingJob, CloudDocument, blank, Contents}
use classing_backend.Store.Fixtures.{contents}
use classing_backend.Store.Jobs.{new_job}
use classing_backend.Worker.Fixtures.{leap_day, maths}
use classing_backend.Worker.Lessons.{BriefingLesson, BriefingException, BriefingSchedule}
use classing_backend.Worker.Documents.{
  BriefingDocument, CloudRecord, recognized, not_json, parse_briefing_document,
  build_briefing_digest,
}
use classing_backend.Worker.Documents.Sources.{digest_of_own}

abbrev live : CloudRecord
live = record { id = "weekStartDay"; payload = "m"; deleted_at = " null " }

abbrev deleted : CloudRecord
deleted = record { id = "x"; payload = "m"; deleted_at = "17" }

abbrev document : BriefingDocument
document = record {
  lessons = none;
  exceptions = [];
  timetable = none;
  mobile_settings = none;
  records = ("timetable.lessons", deleted ∷ live ∷ []) ∷ ("mobile.settings", live ∷ []) ∷ [];
}

abbrev decode_document : String → Option BriefingDocument
decode_document s = if s == "d" then some document else none

abbrev decode_lesson : String → Option BriefingLesson
decode_lesson s = if s == "m" then some maths else none

abbrev decode_exception : String → Option BriefingException
decode_exception s = none

abbrev decode_setting : String → Option Json
decode_setting s = some (text "SUNDAY")

abbrev defaults : BriefingSchedule
defaults = record {
  lessons = [];
  exceptions = [];
  week_number_mode = "NATURAL";
  semester_week_start_date = "";
  week_start_day = "MONDAY";
}

reads :
    parse_briefing_document decode_document decode_lesson decode_exception decode_setting "d"
      defaults
    ≡ recognized (record defaults { lessons = maths ∷ []; week_start_day = "SUNDAY" })
unfolding parse_briefing_document trim_space
reads = refl

refuses :
    parse_briefing_document decode_document decode_lesson decode_exception decode_setting "{"
      defaults
    ≡ not_json
unfolding parse_briefing_document
refuses = refl

abbrev job : BriefingJob
job = new_job 5 "j" "b" "2024-02-29" "EMAIL" 5 blank

abbrev own_cloud : CloudDocument
own_cloud = record { user_id = "b"; payload = "d"; version = 1; updated_at = 5 }

abbrev stored : Contents
stored = record contents { documents = own_cloud ∷ [] }

abbrev with_others : Contents
with_others = record stored {
  documents = record own_cloud { user_id = "a"; payload = "e" } ∷ own_cloud ∷ [];
  jobs = job ∷ [];
}

digest_of_own_example :
    build_briefing_digest decode_document decode_lesson decode_exception decode_setting leap_day job
      stored
    ≡ build_briefing_digest decode_document decode_lesson decode_exception decode_setting leap_day
        job with_others
digest_of_own_example =
    digest_of_own decode_document decode_lesson decode_exception decode_setting leap_day job stored
      with_others refl refl
