-- ===== src/Store/Timetables/Versions.antt =====
-- Which of two updates of one version wins.
use classing_backend.Base.{
  ℕ, ◌+◌, ◌<◌, ◌≡◌, refl, String, Bool, ◌||◌, Option, some, List, arith, if◌then◌else◌, ◌==◌,
  nat_eq, string_eq, inl, inr, Option-cases,
}
use classing_backend.Base.Int.{ℤ, pos}
use classing_backend.Base.Json.{Json}
use classing_backend.Base.Table.{
  select_one, update_where, select_one-update_where, select_one_passes,
}
use classing_backend.Store.Core.{conflict, forbidden, ok, err}
use classing_backend.Store.ContentRows.{TimetableProject, Contents}
use classing_backend.Store.Timetables.{
  find_timetable, timetable, merged, is_version, replaced, replace_timetable, update_timetable,
}

module _ (decode : String → Option Json) (known_zone : String → Bool) where
  -- What a successful update has found and left.
  record Updated (id user : String) (admin : Bool) (version : ℕ) (item : TimetableProject)
      (d' : Contents) : Type 0 where
    stored : find_timetable id d' ≡ some item
    next : item.version ≡ version + 1

  replaced-found :
      (now : ℕ) (id : String) (current row : TimetableProject) (rows : List TimetableProject)
      → select_one (λ t. t.id == id) rows ≡ some current
      → row.version ≡ current.version
      → select_one
          (λ t. t.id == id)
          (update_where (is_version id row.version) (replaced now row) rows)
        ≡ some (replaced now row current)
  replaced-found now id current row rows e v =
      rw
        (
          select_one-update_where (λ t. t.id == id) (is_version id row.version) (replaced now row)
              rows (λ t. refl),
          e,
        )
        (ground (arith, select_one_passes (λ t. t.id == id) rows current e))

  update-Updated :
      (now : ℕ) (id user : String) (admin : Bool) (name timezone semester_start : String)
      (week_count : ℤ) (document : String) (version : ℕ) (d d' : Contents) (item : TimetableProject)
      → 0 < version
      → update_timetable decode known_zone now id user admin name timezone semester_start week_count
          document
          (pos version)
          d
        ≡ (ok item, d')
      → Updated id user admin version item d'
  unfolding update_timetable timetable replace_timetable
  update-Updated now id user admin name timezone semester_start week_count document version d d'
        item h run =
      elim (Option-cases (find_timetable id d)) [
        | inl f ↦ absurd (ground arith)
        | inr (current, f) ↦
            let row = merged current name timezone semester_start week_count document in
            ground (arith, replaced-found now id current row d.timetables f)
      ]

  -- Of two updates that expect one version, which is not 0, one wins: after an update has succeeded,
  -- another one of the project, on the tables that it left, is refused and changes nothing, with
  -- Conflict for an administrator or the owner and with Forbidden for anyone else.
  pub stale_update_conflicts :
      (now : ℕ) (id user : String) (admin : Bool) (name timezone semester_start : String)
      (week_count : ℤ) (document : String) (version : ℕ) (d d' : Contents) (item : TimetableProject)
      (later : ℕ) (user' : String) (admin' : Bool) (name' timezone' semester_start' : String)
      (week_count' : ℤ) (document' : String)
      → 0 < version
      → update_timetable decode known_zone now id user admin name timezone semester_start week_count
          document
          (pos version)
          d
        ≡ (ok item, d')
      → update_timetable decode known_zone later id user' admin' name' timezone' semester_start'
          week_count' document'
          (pos version)
          d'
        ≡ (if admin' || item.owner_id == user' then err conflict else err forbidden, d')
  unfolding update_timetable timetable
  stale_update_conflicts now id user admin name timezone semester_start week_count document version
        d d' item later user' admin' name' timezone' semester_start' week_count' document' h run =
      let u =
        update-Updated now id user admin name timezone semester_start week_count document version d
          d' item h run in
      ground (arith, u.stored, u.next)
