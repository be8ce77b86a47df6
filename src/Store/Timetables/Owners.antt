-- ===== src/Store/Timetables/Owners.antt =====
-- Who can change a timetable project, which of two changes wins, and what every project satisfies.
use classing_backend.Base.{
  ℕ, ◌≡◌, refl, String, Bool, true, false, not, Option, some, List, [], ◌∷◌, arith, ◌==◌, nat_eq,
  string_eq, inl, inr, Bool-cases, Option-cases,
}
use text.Mathlib.TextEquality.{eq_iff}
use classing_backend.Base.Int.{ℤ}
use classing_backend.Base.Json.{Json}
use classing_backend.Base.Table.{
  select_one, delete_where, select_one-update_other, select_one-append,
}
use classing_backend.Store.ContentRows.{TimetableProject, Contents}
use classing_backend.Store.Timetables.{
  new_timetable, add_timetable, create_timetable, find_timetable, timetable, delete_timetable,
  merged, is_version, replaced, replace_timetable, update_timetable,
}

-- The requests that change projects.
pub data TimetableChange : Type 0 where
  create : String → String → String → String → ℤ → String → TimetableChange
  update : String → Bool → String → String → String → ℤ → String → ℤ → TimetableChange
  delete : String → Bool → TimetableChange

module _ (decode : String → Option Json) (known_zone : String → Bool) where
  -- What a request of `user` leaves.
  unfoldable pub changed : ℕ → String → TimetableChange → Contents → Contents
  changed now user (create id name timezone semester_start week_count document) d =
      (create_timetable decode known_zone now id user name timezone semester_start week_count
        document d).1
  changed now user (update id admin name timezone semester_start week_count document expected) d =
      (update_timetable decode known_zone now id user admin name timezone semester_start week_count
        document expected d).1
  changed now user (delete id admin) d = (delete_timetable id user admin d).1

select_one-delete_other :
    (id other : String) (rows : List TimetableProject)
    → (id == other) ≡ false
    → select_one (λ t. t.id == other) (delete_where (λ t. t.id == id) rows)
      ≡ select_one (λ t. t.id == other) rows
select_one-delete_other id other [] h = refl
select_one-delete_other id other (x ∷ rows) h = ground (
  arith,
  select_one-delete_other id other rows h,
  eq_iff x.id id,
  eq_iff x.id other,
  eq_iff id other,
)

-- A request without the rights of an administrator.
abbrev pub by_owner : TimetableChange → Bool
by_owner (create _ _ _ _ _ _) = true
by_owner (update _ admin _ _ _ _ _ _) = not admin
by_owner (delete _ admin) = not admin

module _ (user : String) (other : String) (t : TimetableProject) (d : Contents)
    (found : find_timetable other d ≡ some t) (foreign : (t.owner_id == user) ≡ false) where
  delete-foreign :
      (id : String) → find_timetable other (delete_timetable id user false d).1 ≡ some t
  unfolding delete_timetable timetable
  delete-foreign id = elim (Bool-cases (id == other)) [
    | inl e ↦ ground (arith, eq_iff id other)
    | inr e ↦ ground (arith, select_one-delete_other id other d.timetables e)
  ]

  replace-foreign :
      (now : ℕ) (id : String) (row : TimetableProject)
      → (id == other) ≡ false
      → find_timetable other (replace_timetable now id row d).1 ≡ some t
  unfolding replace_timetable
  replace-foreign now id row e = ground (
    arith,
    select_one-update_other (λ t. t.id == other) (is_version id row.version) (replaced now row)
        d.timetables (λ t. refl)
        (λ t h. ground (arith, eq_iff t.id id, eq_iff t.id other, eq_iff id other)),
  )

  add-foreign : (row : TimetableProject) → find_timetable other (add_timetable row d).1 ≡ some t
  unfolding add_timetable
  add-foreign row = ground (arith, select_one-append (λ t. t.id == other) d.timetables (row ∷ []))

  module _ (decode : String → Option Json) (known_zone : String → Bool) where
    update-foreign :
        (now : ℕ) (id name timezone semester_start : String) (week_count : ℤ) (document : String)
        (expected : ℤ)
        → find_timetable other
            (update_timetable decode known_zone now id user false name timezone semester_start
              week_count document expected d).1
          ≡ some t
    unfolding update_timetable timetable
    update-foreign now id name timezone semester_start week_count document expected =
        elim (Bool-cases (id == other)) [
          | inl e ↦ ground (arith, eq_iff id other)
          | inr e ↦ elim (Option-cases (find_timetable id d)) [
            | inl f ↦ ground arith
            | inr (current, f) ↦ ground (
              arith,
              replace-foreign now id
                  (merged current name timezone semester_start week_count document) e,
            )
          ]
        ]

    create-foreign :
        (now : ℕ) (id owner name timezone semester_start : String) (week_count : ℤ)
        (document : String)
        → find_timetable other
            (create_timetable decode known_zone now id owner name timezone semester_start week_count
              document d).1
          ≡ some t
    unfolding create_timetable
    create-foreign now id owner name timezone semester_start week_count document = ground (
      arith,
      add-foreign (new_timetable now id owner name timezone semester_start week_count document),
    )

    -- Only its owner changes a project: whatever a user who is not its owner asks for, without the
    -- rights of an administrator, be it to create, to update or to delete, the project that is found
    -- under an id is the same afterwards.
    pub changed-foreign :
        (now : ℕ) (change : TimetableChange)
        → by_owner change ≡ true
        → find_timetable other (changed decode known_zone now user change d) ≡ some t
    unfolding changed
    changed-foreign now (create id name timezone semester_start week_count document) h =
        create-foreign now id user name timezone semester_start week_count document
    changed-foreign now (update id true name timezone semester_start week_count document expected)
          h =
        cc
    changed-foreign now (update id false name timezone semester_start week_count document expected)
          h =
        update-foreign now id name timezone semester_start week_count document expected
    changed-foreign now (delete id true) h = cc
    changed-foreign now (delete id false) h = delete-foreign id
