-- ===== src/Store/Timetables/Tests.antt =====
-- Runs of internal/store/timetables.go.
use classing_backend.Base.{
  ◌||◌, ◌≡◌, inl, inr, refl, String, Bool, true, false, ◌∷◌, [], Option, none, some, ◌==◌,
  string_eq, nat_eq, arith, if◌then◌else◌,
}
use classing_backend.Base.Int.{pos}
use classing_backend.Base.Dates.{parse_date}
use classing_backend.Base.Json.{Json, array, object, member, no_members, no_items}
use classing_backend.Base.Text.{trim_space, to_lower, like}
use classing_backend.Base.Order.{order_by}
use classing_backend.Store.Core.{ok, err, conflict, invalid}
use classing_backend.Store.ContentRows.{Contents, TimetableProject}
use classing_backend.Store.Fixtures.{contents}
use classing_backend.Store.Timetables.{
  timetable_fields_valid, create_timetable, find_timetable, timetable, replace_timetable,
  update_timetable, new_timetable, add_timetable, list_timetables_filtered,
}
use classing_backend.Store.Timetables.Owners.{update, delete, changed, changed-foreign}
use classing_backend.Store.Timetables.Validity.{ValidProjects, changed-ValidProjects}
use classing_backend.Store.Timetables.Versions.{stale_update_conflicts}

-- A decoder that knows one document.
abbrev decode : String → Option Json
decode s =
    if s == "doc" || s == "{\"lessons\":[],\"exceptions\":[]}"
    then some (object (member "lessons" (array no_items) no_members))
    else none

abbrev known_zone : String → Bool
known_zone s = s == "Asia/Shanghai" || s == "UTC"

abbrev planned : Contents
planned =
    (create_timetable decode known_zone 5 "p" "b" " Spring " "" "2024-02-29" (pos 0) "doc"
      contents).1

abbrev project : TimetableProject
project = new_timetable 5 "p" "b" " Spring " "" "2024-02-29" (pos 0) "doc"

creates :
    create_timetable decode known_zone 5 "p" "b" " Spring " "" "2024-02-29" (pos 0) "doc" contents
    ≡ (ok project, planned)
unfolding create_timetable timetable_fields_valid add_timetable new_timetable trim_space parse_date
creates = refl

no_such_day :
    (create_timetable decode known_zone 5 "p" "b" "Spring" "" "2023-02-29" (pos 0) "doc" contents).0
    ≡ err invalid
unfolding create_timetable timetable_fields_valid add_timetable new_timetable trim_space parse_date
no_such_day = refl

abbrev renamed : TimetableProject
renamed = record {
  id = "p";
  owner_id = "b";
  name = "Autumn";
  timezone = "UTC";
  semester_start = "2024-02-29";
  week_count = pos 18;
  document = "doc";
  version = 2;
  created_at = 5;
  updated_at = 7;
}

abbrev after_rename : Contents
after_rename = record contents { timetables = renamed ∷ [] }

updates :
    update_timetable decode known_zone 7 "p" "b" false "Autumn" "UTC" "" (pos 18) "" (pos 1) planned
    ≡ (ok renamed, after_rename)
unfolding update_timetable timetable replace_timetable create_timetable timetable_fields_valid
    add_timetable new_timetable trim_space parse_date
updates = refl

lists : list_timetables_filtered "a" true 10 0 "SPR" "" planned ≡ (project ∷ [], 1)
unfolding list_timetables_filtered order_by like to_lower create_timetable timetable_fields_valid
    add_timetable new_timetable trim_space parse_date
lists = refl

found : find_timetable "p" planned ≡ some project
unfolding create_timetable timetable_fields_valid add_timetable new_timetable trim_space parse_date
found = refl

foreign : (project.owner_id == "c") ≡ false
unfolding new_timetable
foreign = refl

changed-foreign_example :
    find_timetable "p" (changed decode known_zone 9 "c" (delete "p" false) planned) ≡ some project
changed-foreign_example =
    changed-foreign "c" "p" project planned found foreign decode known_zone 9 (delete "p" false)
      refl

valid : ValidProjects decode known_zone after_rename
unfolding trim_space parse_date
valid = (
  record {
    named = refl;
    short_name = omega arith;
    zone = refl;
    start = inr (record { year = 2024; month = 2; day = 29 }, refl);
    some_weeks = omega arith;
    few_weeks = omega arith;
    short_document = omega arith;
    document = (
      member "lessons" (array no_items) no_members,
      refl,
      (no_items, refl, omega arith),
      inl refl,
    );
  },
  tt,
)

changed-ValidProjects_example :
    ValidProjects decode known_zone
      (changed decode known_zone 9 "b" (update "p" false "" "" "" (pos 7) "" (pos 2)) after_rename)
changed-ValidProjects_example =
    changed-ValidProjects decode known_zone 9 "b" (update "p" false "" "" "" (pos 7) "" (pos 2))
      after_rename valid

stale_update_conflicts_example :
    update_timetable decode known_zone 9 "p" "b" false "Winter" "" ""
      (pos 0)
      ""
      (pos 1)
      after_rename
    ≡ (err conflict, after_rename)
stale_update_conflicts_example =
    stale_update_conflicts decode known_zone 7 "p" "b" false "Autumn" "UTC" "" (pos 18) "" 1 planned
      after_rename renamed 9 "b" false "Winter" "" "" (pos 0) "" (omega arith) updates
