-- ===== src/Store/Timetables/Validity.antt =====
-- What every stored project satisfies.
use classing_backend.Base.{
  ℕ, ◌≡◌, refl, ◌⊎◌, String, Bool, true, false, ◌≤◌, Option, none, some, arith, ltb, if◌then◌else◌,
  ◌==◌, nat_eq, string_eq, inl, inr, Bool-cases, Option-cases,
}
use classing_backend.Base.Int.{ℤ, pos, ◌≤ℤ◌}
use classing_backend.Base.Dates.{Date, parse_date}
use classing_backend.Base.Text.{trim_space, rune_count, byte_count}
use classing_backend.Base.Json.{
  Json, null, truth, number, text, array, object, Items, Members, item_count, member_of,
}
use classing_backend.Base.Lists.{All}
use classing_backend.Base.Everywhere.{All-insert, All-update_where, All-delete_where}
use classing_backend.Base.Table.{count_where, delete_where}
use classing_backend.Store.ContentRows.{TimetableProject, Contents}
use classing_backend.Store.Timetables.{
  is_short_array, decodes_to_document, timetable_fields_valid, create_timetable, find_timetable,
  timetable, delete_timetable, merged, is_version, replaced, replace_timetable, update_timetable,
  new_timetable, add_timetable,
}
use classing_backend.Store.Timetables.Owners.{TimetableChange, create, update, delete, changed}

-- An array of at most 2000 elements.
abbrev pub IsShortList : Option Json → Type 0
IsShortList v = (items : Items) × (v ≡ some (array items)) × (item_count items ≤ 2000)

-- A JSON object with a short array of lessons, and a short array of exceptions if it has any.
abbrev pub IsTimetableDocument : Option Json → Type 0
IsTimetableDocument v =
    (ms : Members) × (v ≡ some (object ms))
    × IsShortList (member_of "lessons" ms)
    × ((member_of "exceptions" ms ≡ none) ⊎ IsShortList (member_of "exceptions" ms))

short_list : (v : Option Json) → is_short_array v ≡ true → IsShortList v
short_list none h = absurd (ground arith)
short_list (some (array items)) h = (items, refl, ground (arith, h))
short_list (some null) h = absurd (ground arith)
short_list (some (truth b)) h = absurd (ground arith)
short_list (some (number n)) h = absurd (ground arith)
short_list (some (text t)) h = absurd (ground arith)
short_list (some (object ms)) h = absurd (ground arith)

document_of : (v : Option Json) → decodes_to_document v ≡ true → IsTimetableDocument v
document_of none h = absurd (ground arith)
document_of (some (object ms)) h = (
  ms,
  refl,
  short_list (member_of "lessons" ms) (ground (arith, h)),
  elim (Option-cases (member_of "exceptions" ms)) [
    | inl e ↦ inl e
    | inr (v, e) ↦ inr (short_list (member_of "exceptions" ms) (ground (arith, h, e)))
  ],
)
document_of (some null) h = absurd (ground arith)
document_of (some (truth b)) h = absurd (ground arith)
document_of (some (number n)) h = absurd (ground arith)
document_of (some (text t)) h = absurd (ground arith)
document_of (some (array items)) h = absurd (ground arith)

module _ (decode : String → Option Json) (known_zone : String → Bool) where
  -- A name of 1 to 100 characters between its margins, a known time zone, which is Asia/Shanghai where
  -- none is written, a start of the semester that is empty or a date, 1 to 60 weeks, and a document of at
  -- most 2 MiB.
  pub record IsValidProject (t : TimetableProject) : Type 0 where
    pub named : (trim_space t.name == "") ≡ false
    pub short_name : rune_count (trim_space t.name) ≤ 100
    pub zone : known_zone (if t.timezone == "" then "Asia/Shanghai" else t.timezone) ≡ true
    pub start :
        ((t.semester_start == "") ≡ true)
        ⊎ ((date : Date) × (parse_date t.semester_start ≡ some date))
    pub some_weeks : pos 1 ≤ℤ t.week_count
    pub few_weeks : t.week_count ≤ℤ pos 60
    pub short_document : byte_count t.document ≤ 2097152
    pub document : IsTimetableDocument (decode t.document)

  fields-IsValidProject :
      (t : TimetableProject)
      → timetable_fields_valid decode known_zone t.name t.timezone t.semester_start t.week_count
          t.document true
        ≡ true
      → IsValidProject t
  unfolding timetable_fields_valid
  fields-IsValidProject t h = record {
    named = ground (arith, h);
    short_name = ground (arith, h);
    zone = ground (arith, h);
    start = elim (Option-cases (parse_date t.semester_start)) [
      | inl e ↦ inl (ground (arith, h, e))
      | inr d ↦ inr d
    ];
    some_weeks = ground (arith, h);
    few_weeks = ground (arith, h);
    short_document = ground (arith, h);
    document = document_of (decode t.document) (ground (arith, h));
  }

  abbrev pub ValidProjects : Contents → Type 0
  ValidProjects d = All IsValidProject d.timetables

  add_timetable-ValidProjects :
      (row : TimetableProject) (d : Contents)
      → IsValidProject row
      → ValidProjects d
      → ValidProjects (add_timetable row d).1
  unfolding add_timetable
  add_timetable-ValidProjects row d h v =
      elim (Bool-cases (ltb 0 (count_where (λ t. t.id == row.id) d.timetables))) [
        | inl e ↦ rw (e, add_timetable) v
        | inr e ↦ rw (e, add_timetable) (All-insert IsValidProject d.timetables row v h)
      ]

  replace_timetable-ValidProjects :
      (now : ℕ) (id : String) (row : TimetableProject) (d : Contents)
      → IsValidProject row
      → ValidProjects d
      → ValidProjects (replace_timetable now id row d).1
  unfolding replace_timetable
  replace_timetable-ValidProjects now id row d h v =
      All-update_where IsValidProject (is_version id row.version) (replaced now row) d.timetables v
        (λ t e p. record {
          named = h.named;
          short_name = h.short_name;
          zone = h.zone;
          start = h.start;
          some_weeks = h.some_weeks;
          few_weeks = h.few_weeks;
          short_document = h.short_document;
          document = h.document;
        })

  fields_valid : TimetableProject → Bool
  fields_valid t =
      timetable_fields_valid decode known_zone t.name t.timezone t.semester_start t.week_count
        t.document true

  create-tables :
      (now : ℕ) (id owner name timezone semester_start : String) (week_count : ℤ)
      (document : String) (d : Contents)
      → let row = new_timetable now id owner name timezone semester_start week_count document in
        (create_timetable decode known_zone now id owner name timezone semester_start week_count
          document d).1
        ≡ (if fields_valid row then (add_timetable row d).1 else d)
  unfolding create_timetable fields_valid
  create-tables now id owner name timezone semester_start week_count document d = ground arith

  create-ValidProjects :
      (now : ℕ) (id owner name timezone semester_start : String) (week_count : ℤ)
      (document : String) (d : Contents)
      → ValidProjects d
      → ValidProjects
          (create_timetable decode known_zone now id owner name timezone semester_start week_count
            document d).1
  create-ValidProjects now id owner name timezone semester_start week_count document d v =
      let row = new_timetable now id owner name timezone semester_start week_count document in
      rw (create-tables now id owner name timezone semester_start week_count document d)
        (elim (Bool-cases (fields_valid row)) [
          | inl e ↦ rw e (
              add_timetable-ValidProjects row d
                (fields-IsValidProject row (unfold fields_valid in e)) v)
          | inr e ↦ rw e v
        ])

  update-tables :
      (now : ℕ) (id user : String) (admin : Bool) (name timezone semester_start : String)
      (week_count : ℤ) (document : String) (expected : ℤ) (d : Contents)
      (current : TimetableProject)
      → find_timetable id d ≡ some current
      → let row = merged current name timezone semester_start week_count document in
        let left =
          (update_timetable decode known_zone now id user admin name timezone semester_start
            week_count document expected d).1 in
        (left ≡ d) ⊎ ((fields_valid row ≡ true) × (left ≡ (replace_timetable now id row d).1))
  unfolding update_timetable timetable fields_valid
  update-tables now id user admin name timezone semester_start week_count document expected d
        current f =
      ground arith

  update_none :
      (now : ℕ) (id user : String) (admin : Bool) (name timezone semester_start : String)
      (week_count : ℤ) (document : String) (expected : ℤ) (d : Contents)
      → find_timetable id d ≡ none
      → (update_timetable decode known_zone now id user admin name timezone semester_start
          week_count document expected d).1
        ≡ d
  unfolding update_timetable timetable
  update_none now id user admin name timezone semester_start week_count document expected d f =
      ground arith

  update-ValidProjects :
      (now : ℕ) (id user : String) (admin : Bool) (name timezone semester_start : String)
      (week_count : ℤ) (document : String) (expected : ℤ) (d : Contents)
      → ValidProjects d
      → ValidProjects
          (update_timetable decode known_zone now id user admin name timezone semester_start
            week_count document expected d).1
  update-ValidProjects now id user admin name timezone semester_start week_count document expected d
        v =
      elim (Option-cases (find_timetable id d)) [
        | inl f ↦
            rw
              (update_none now id user admin name timezone semester_start week_count document
                expected d f)
              v
        | inr (current, f) ↦
            let row = merged current name timezone semester_start week_count document in
            elim (update-tables now id user admin name timezone semester_start week_count document
              expected d current f) [
                | inl same ↦ rw same v
                | inr (valid, made) ↦ rw made (
                    replace_timetable-ValidProjects now id row d
                      (fields-IsValidProject _ (unfold fields_valid in valid)) v)
              ]
      ]

  delete-tables :
      (id user : String) (admin : Bool) (d : Contents)
      → let left = (delete_timetable id user admin d).1 in
        (left ≡ d) ⊎ (left.timetables ≡ delete_where (λ t. t.id == id) d.timetables)
  unfolding delete_timetable timetable
  delete-tables id user admin d = ground arith

  -- Every stored project stays valid: where each has a name of 1 to 100 characters between its margins, a
  -- known time zone, which is Asia/Shanghai where none is written, a start of the semester that is empty or
  -- a date, 1 to 60 weeks and a document of at most 2 MiB, which is a JSON object with at most 2000 lessons
  -- and, if it has exceptions, at most 2000 of them, all have so after any request of any user.
  pub changed-ValidProjects :
      (now : ℕ) (user : String) (change : TimetableChange) (d : Contents)
      → ValidProjects d
      → ValidProjects (changed decode known_zone now user change d)
  unfolding changed
  changed-ValidProjects now user (create id name timezone semester_start week_count document) d v =
      create-ValidProjects now id user name timezone semester_start week_count document d v
  changed-ValidProjects now user
        (update id admin name timezone semester_start week_count document expected) d v =
      update-ValidProjects now id user admin name timezone semester_start week_count document
        expected d v
  changed-ValidProjects now user (delete id admin) d v = elim (delete-tables id user admin d) [
    | inl same ↦ rw same v
    | inr gone ↦ rw gone (All-delete_where IsValidProject (λ t. t.id == id) d.timetables v)
  ]
