-- ===== src/Worker/Documents.antt =====
-- internal/worker/briefing.go, the timetable that a briefing is made from: the cloud document of the user,
-- or else the first timetable project. The decoders of encoding/json are arguments: of the document, and
-- of the payload of a record as a lesson, as an exception and as a setting. A decoder gives none where
-- encoding/json fails.
mod Tests
pub mod Sources
use Prim.Native.String.{slice}
use Prim.Native.String.{◌++◌ as concat}
use classing_backend.Base.{
  ℕ, String, Bool, true, false, not, ◌&&◌, ◌||◌, Option, none, some, List, [], ◌∷◌, leb,
  if◌then◌else◌, ◌==◌, string_eq,
}
use classing_backend.Base.Int.{ℤ}
use classing_backend.Base.Json.{Json, null, text}
use classing_backend.Base.Dict.{insert, lookup}
use classing_backend.Base.Dates.{Date, parse_date, format_date}
use classing_backend.Base.Text.{trim_space, byte_count}
use classing_backend.Store.Core.{Result, ok, err}
use classing_backend.Store.ContentRows.{BriefingJob, TimetableProject, CloudDocument, Contents}
use classing_backend.Store.Cloud.{cloud_document}
use classing_backend.Store.Timetables.{list_timetables}
use classing_backend.Worker.Lessons.{
  BriefingLesson, BriefingException, BriefingSchedule, non_blank, lessons_for_date,
}
use classing_backend.Worker.Mail.{BriefingDigest}

pub record CloudRecord : Type 0 where
  pub id : String
  pub payload : String
  pub deleted_at : String

-- The part `timetable` of a document. A list that the document has not is none.
pub record TimetablePart : Type 0 where
  pub lessons : Option (List BriefingLesson)
  pub base_lessons : Option (List BriefingLesson)
  pub exceptions : List BriefingException
  pub week_number_mode : String
  pub semester_week_start_date : String

pub record BriefingDocument : Type 0 where
  pub lessons : Option (List BriefingLesson)
  pub exceptions : List BriefingException
  pub timetable : Option TimetablePart
  pub mobile_settings : Option (List (String × Json))
  pub records : List (String × List CloudRecord)

abbrev pub list_or_nil {ℓ} : {A : Type ℓ} → Option (List A) → List A
list_or_nil none = []
list_or_nil (some xs) = xs

abbrev pub any_string : Option Json → String → String
any_string (some (text t)) fallback = if trim_space t == "" then fallback else t
any_string _ fallback = fallback

abbrev pub string_setting : List (String × Json) → String → String → String
string_setting settings key fallback = any_string (lookup key settings) fallback

-- A record that is not marked as deleted and has a payload.
abbrev pub is_live : CloudRecord → Bool
is_live r =
    not (r.payload == "") && (trim_space r.deleted_at == "" || trim_space r.deleted_at == "null")

abbrev pub decode_live_records {ℓ} : {A : Type ℓ} → (String → Option A) → List CloudRecord → List A
decode_live_records decode [] = []
decode_live_records decode (r ∷ rs) =
    let rest = decode_live_records decode rs in
    if is_live r then (elim (decode r.payload) [ none ↦ rest | some item ↦ item ∷ rest ]) else rest

-- The records that come first are put into the map first.
abbrev pub decode_setting_records :
    (String → Option Json) → List (String × Json) → List CloudRecord → List (String × Json)
decode_setting_records decode settings [] = settings
decode_setting_records decode settings (r ∷ rs) =
    decode_setting_records decode
      (if not (r.id == "") && is_live r
        then (elim (decode r.payload) [ none ↦ settings | some value ↦ insert r.id value settings ])
        else settings)
      rs

abbrev pub natural_schedule : BriefingSchedule
natural_schedule = record {
  lessons = [];
  exceptions = [];
  week_number_mode = "NATURAL";
  semester_week_start_date = "";
  week_start_day = "MONDAY";
}

-- The modes that the settings of the application override.
abbrev pub with_settings : List (String × Json) → BriefingSchedule → BriefingSchedule
with_settings settings s = record s {
  week_number_mode = string_setting settings "weekNumberMode" s.week_number_mode;
  semester_week_start_date =
      string_setting settings "semesterWeekStartDate" s.semester_week_start_date;
  week_start_day = string_setting settings "weekStartDay" s.week_start_day;
}

abbrev pub timetable_schedule : BriefingSchedule → TimetablePart → BriefingSchedule
timetable_schedule defaults t = record defaults {
  lessons = elim t.base_lessons [ none ↦ list_or_nil t.lessons | some ls ↦ ls ];
  exceptions = t.exceptions;
  week_number_mode = non_blank t.week_number_mode defaults.week_number_mode;
  semester_week_start_date = non_blank t.semester_week_start_date defaults.semester_week_start_date;
}

-- What a document is read as: an error, no timetable, or a schedule.
pub data Parsed : Type 0 where
  not_json : Parsed
  not_recognized : Parsed
  recognized : BriefingSchedule → Parsed

module _ (decode_document : String → Option BriefingDocument)
    (decode_lesson : String → Option BriefingLesson)
    (decode_exception : String → Option BriefingException)
    (decode_setting : String → Option Json) where
  abbrev pub records_schedule :
      BriefingSchedule → BriefingDocument → List CloudRecord → BriefingSchedule
  records_schedule defaults doc lessons =
      with_settings
        (decode_setting_records decode_setting []
          (list_or_nil (lookup "mobile.settings" doc.records)))
        (record defaults {
          lessons = decode_live_records decode_lesson lessons;
          exceptions =
              decode_live_records decode_exception
                (list_or_nil (lookup "timetable.exceptions" doc.records));
        })

  abbrev pub read_document : BriefingSchedule → BriefingDocument → Parsed
  read_document defaults doc = elim (lookup "timetable.lessons" doc.records) [
    | some lessons ↦ recognized (records_schedule defaults doc lessons)
    | none ↦ (elim doc.timetable [
      | some t ↦ (elim doc.mobile_settings [
        | none ↦ recognized (timetable_schedule defaults t)
        | some settings ↦ recognized (with_settings settings (timetable_schedule defaults t))
      ])
      | none ↦ (elim doc.lessons [
        | none ↦ not_recognized
        | some lessons ↦
            recognized (record defaults { lessons = lessons; exceptions = doc.exceptions })
      ])
    ])
  ]

  pub parse_briefing_document : String → BriefingSchedule → Parsed
  parse_briefing_document raw defaults = elim (decode_document raw) [
    | none ↦ not_json
    | some doc ↦ read_document defaults doc
  ]

  abbrev pub no_digest : Date → BriefingDigest
  no_digest date = record {
    target_date = format_date date;
    available = false;
    source = "";
    lessons = [];
  }

  abbrev pub digest_of : String → Date → Parsed → BriefingDigest
  digest_of source date not_json = no_digest date
  digest_of source date not_recognized = no_digest date
  digest_of source date (recognized s) = record {
    target_date = format_date date;
    available = true;
    source = source;
    lessons = lessons_for_date s date;
  }

  abbrev pub semester_schedule : String → BriefingSchedule
  semester_schedule semester_start = record natural_schedule {
    week_number_mode = "SEMESTER";
    semester_week_start_date = semester_start;
  }

  -- `today` is the date of the server's clock.
  unfoldable pub briefing_target_date : Date → String → Date
  briefing_target_date today raw =
      elim (if leb 10 (byte_count raw) then parse_date (slice raw 0 10) else none) [
        | none ↦ today
        | some parsed ↦ parsed
      ]

  -- The digest of the first timetable project, if there is one.
  abbrev pub first_project_digest : Date → List TimetableProject → BriefingDigest
  first_project_digest date [] = no_digest date
  first_project_digest date (project ∷ _) =
      digest_of (concat "Classing 课表项目「" (concat project.name "」")) date
        (parse_briefing_document project.document (semester_schedule project.semester_start))

  pub project_digest : String → Date → Contents → BriefingDigest
  project_digest user date d = first_project_digest date (list_timetables user false 1 0 d).0

  -- The digest of the cloud document, if there is one that is recognized.
  abbrev pub cloud_digest : Date → BriefingDigest → Result CloudDocument → BriefingDigest
  cloud_digest date otherwise (err e) = otherwise
  cloud_digest date otherwise (ok cloud) =
      elim (parse_briefing_document cloud.payload natural_schedule) [
        | recognized s ↦ digest_of "Classing 官方云同步" date (recognized s)
        | _ ↦ otherwise
      ]

  pub build_briefing_digest : Date → BriefingJob → Contents → BriefingDigest
  build_briefing_digest today job d =
      let date = briefing_target_date today job.target_date in
      cloud_digest date (project_digest job.user_id date d) (cloud_document job.user_id d).0
