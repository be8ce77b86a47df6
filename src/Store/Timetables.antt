-- ===== src/Store/Timetables.antt =====
-- internal/store/timetables.go: the timetable projects of the users. The decoder of JSON and the time
-- zones that time.LoadLocation knows are arguments.
pub mod Owners
pub mod Validity
pub mod Versions
mod Tests
use Prim.Native.String.{◌++◌ as concat}
use classing_backend.Base.{
  ℕ, ◌+◌, ◌*◌, String, Bool, true, false, not, ◌&&◌, ◌||◌, Option, none, some, List, leb, ltb, map,
  if◌then◌else◌, ◌==◌, nat_eq, string_eq,
}
use classing_backend.Base.Int.{ℤ, pos, is_nat, is_positive, leb_ℤ, ltb_ℤ}
use classing_backend.Base.Json.{Json, Items, Members, array, object, item_count, member_of}
use classing_backend.Base.Dates.{parse_date}
use classing_backend.Base.Table.{select_one, count_where, update_where, delete_where, select_where}
use classing_backend.Base.Order.{page, order_by}
use classing_backend.Base.Text.{trim_space, to_lower, like, rune_count, byte_count}
use classing_backend.Store.Core.{
  conflict, forbidden, invalid, duplicate_key, no_rows, normalize_db_error, Result, ok, err, Action,
  pure, fail, gets, or_fail, ◌>>=◌, ◌>>◌, fail_if, modify, insert_row,
}
use classing_backend.Store.ContentRows.{TimetableProject, Contents}

abbrev pub max_timetable_document_bytes : ℕ
max_timetable_document_bytes = 2 * 1024 * 1024

-- value.([]any), with at most 2000 elements
abbrev pub is_short_array : Option Json → Bool
is_short_array (some (array items)) = leb (item_count items) 2000
is_short_array _ = false

-- `exceptions` may be missing.
abbrev pub is_document : Json → Bool
is_document (object ms) =
    is_short_array (member_of "lessons" ms)
    && (elim (member_of "exceptions" ms) [ none ↦ true | some v ↦ is_short_array (some v) ])
is_document _ = false

abbrev pub decodes_to_document : Option Json → Bool
decodes_to_document none = false
decodes_to_document (some v) = is_document v

abbrev pub find_timetable : String → Contents → Option TimetableProject
find_timetable id d = select_one (λ t. t.id == id) d.timetables

-- The project that is made of the fields given, where some may be left empty.
pub new_timetable : ℕ → String → String → String → String → String → ℤ → String → TimetableProject
new_timetable now id owner_id name timezone semester_start week_count document = record {
  id = id;
  owner_id = owner_id;
  name = trim_space name;
  timezone = if timezone == "" then "Asia/Shanghai" else timezone;
  semester_start = semester_start;
  week_count = if is_nat week_count 0 then pos 20 else week_count;
  document = if document == "" then "{\"lessons\":[],\"exceptions\":[]}" else document;
  version = 1;
  created_at = now;
  updated_at = now;
}

-- INSERT INTO timetable_projects
pub add_timetable : TimetableProject → Action Contents (Unit {0})
add_timetable row d = elim (insert_row (λ t. t.id == row.id) row d.timetables) [
  | none ↦ fail (normalize_db_error duplicate_key) d
  | some rows ↦ (ok tt, record d { timetables = rows })
]

-- The owner whose projects are listed: all owners' for an administrator who names none.
abbrev pub listed_owner : String → Bool → String → Option String
listed_owner user admin owner_id =
    if not admin
    then some user
    else if trim_space owner_id == ""
    then none
    else some (trim_space owner_id)

abbrev pub is_listed : String → Bool → String → String → TimetableProject → Bool
is_listed user admin query owner_id t =
    (elim (listed_owner user admin owner_id) [ none ↦ true | some owner ↦ t.owner_id == owner ])
    && (trim_space query == ""
        || like (concat "%" (concat (to_lower (trim_space query)) "%")) (to_lower t.name))

unfoldable pub list_timetables_filtered :
    String → Bool → ℕ → ℕ → String → String → Contents → List TimetableProject × ℕ
list_timetables_filtered user admin limit offset query owner_id d = (
  page limit offset (
      order_by (λ t t'. ltb t'.updated_at t.updated_at)
        (select_where (is_listed user admin query owner_id) d.timetables)),
  count_where (is_listed user admin query owner_id) d.timetables,
)

unfoldable pub list_timetables : String → Bool → ℕ → ℕ → Contents → List TimetableProject × ℕ
unfolding list_timetables_filtered
list_timetables user admin limit offset d = list_timetables_filtered user admin limit offset "" "" d

-- The project, for an administrator or its owner.
pub timetable : String → String → Bool → Action Contents TimetableProject
timetable id user admin = do
  found ← gets (find_timetable id)
  item ← or_fail found (normalize_db_error no_rows)
  fail_if (not admin && not (item.owner_id == user)) forbidden
  pure item

pub delete_timetable : String → String → Bool → Action Contents (Unit {0})
delete_timetable id user admin = do
  current ← timetable id user admin
  fail_if (not admin && not (current.owner_id == user)) forbidden
  modify λ d. record d { timetables = delete_where (λ t. t.id == id) d.timetables }

-- The fields that an update leaves empty stay as they are.
abbrev pub merged : TimetableProject → String → String → String → ℤ → String → TimetableProject
merged current name timezone semester_start week_count document = record current {
  name = trim_space (if name == "" then current.name else name);
  timezone = if timezone == "" then current.timezone else timezone;
  semester_start = if semester_start == "" then current.semester_start else semester_start;
  week_count = if ltb_ℤ week_count (pos 1) then current.week_count else week_count;
  document = if document == "" then current.document else document;
}

abbrev pub is_version : String → ℕ → TimetableProject → Bool
is_version id version t = t.id == id && t.version == version

-- UPDATE timetable_projects SET the fields of `row` WHERE id = ? AND version = ?
abbrev pub replaced : ℕ → TimetableProject → TimetableProject → TimetableProject
replaced now row t = record t {
  name = row.name;
  timezone = row.timezone;
  semester_start = row.semester_start;
  week_count = row.week_count;
  document = row.document;
  version = t.version + 1;
  updated_at = now;
}

pub replace_timetable : ℕ → String → TimetableProject → Action Contents (Unit {0})
replace_timetable now id row = do
  affected ← gets (λ d. count_where (is_version id row.version) d.timetables)
  modify λ d. record d {
    timetables = update_where (is_version id row.version) (replaced now row) d.timetables;
  }
  fail_if (not (affected == 1)) conflict

module _ (decode : String → Option Json) (known_zone : String → Bool) where
  pub timetable_fields_valid : String → String → String → ℤ → String → Bool → Bool
  timetable_fields_valid name timezone semester_start week_count document document_required =
      not (trim_space name == "")
      && leb (rune_count (trim_space name)) 100
      && known_zone (if timezone == "" then "Asia/Shanghai" else timezone)
      && (semester_start == ""
          || (elim (parse_date semester_start) [ none ↦ false | some _ ↦ true ]))
      && leb_ℤ (pos 1) week_count
      && leb_ℤ week_count (pos 60)
      && ((document == "" && not document_required)
          || (not (document == "")
              && leb (byte_count document) max_timetable_document_bytes
              && decodes_to_document (decode document)))

  pub create_timetable :
      ℕ → String → String → String → String → String → ℤ → String → Action Contents TimetableProject
  create_timetable now id owner_id name timezone semester_start week_count document = do
    let row = new_timetable now id owner_id name timezone semester_start week_count document
    fail_if
        (not (
          timetable_fields_valid row.name row.timezone row.semester_start row.week_count
            row.document true))
        invalid
    add_timetable row
    pure row

  pub update_timetable :
      ℕ
      → String
      → String
      → Bool
      → String
      → String
      → String
      → ℤ
      → String
      → ℤ
      → Action Contents TimetableProject
  update_timetable now id user admin name timezone semester_start week_count document expected = do
    current ← timetable id user admin
    fail_if (is_positive expected && not (is_nat expected current.version)) conflict
    let row = merged current name timezone semester_start week_count document
    fail_if
        (not (
          timetable_fields_valid row.name row.timezone row.semester_start row.week_count
            row.document true))
        invalid
    replace_timetable now id row
    timetable id user admin
