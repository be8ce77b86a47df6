-- ===== src/Worker/Documents/Sources.antt =====
-- A briefing is made of what its user has stored, and of nothing else.
use classing_backend.Base.{
  ◌≡◌, refl, ◌∙◌, ap, sym, String, false, Option, List, [], ◌∷◌, ◌==◌, string_eq, ltb, inl, inr,
  Bool-cases, Option-cases,
}
use classing_backend.Base.Json.{Json}
use classing_backend.Base.Order.{order_by, page}
use classing_backend.Base.Table.{select_where}
use classing_backend.Base.Text.{trim_space}
use classing_backend.Store.ContentRows.{BriefingJob, TimetableProject, Contents}
use classing_backend.Store.Cloud.{find_document, cloud_document}
use classing_backend.Store.Timetables.{is_listed, list_timetables, list_timetables_filtered}
use classing_backend.Worker.Lessons.{BriefingLesson, BriefingException}
use classing_backend.Worker.Documents.{
  BriefingDocument, first_project_digest, cloud_digest, briefing_target_date, project_digest,
  build_briefing_digest,
}
use classing_backend.Base.Dates.{Date}

-- The projects of a user.
abbrev pub owned : String → Contents → List TimetableProject
owned user d = select_where (λ t. t.owner_id == user) d.timetables

listed_owned :
    (user : String) (rows : List TimetableProject)
    → select_where (is_listed user false "" "") rows ≡ select_where (λ t. t.owner_id == user) rows
unfolding trim_space
listed_owned user [] = refl
listed_owned user (t ∷ rows) = elim (Bool-cases (t.owner_id == user)) [
  | inl e ↦ rw e (ap (λ ts. t ∷ ts) (listed_owned user rows))
  | inr e ↦ rw e (listed_owned user rows)
]

own_document :
    (user : String) (d d' : Contents)
    → find_document user d ≡ find_document user d'
    → (cloud_document user d).0 ≡ (cloud_document user d').0
unfolding cloud_document
own_document user d d' same = elim (Option-cases (find_document user d)) [
  | inl e ↦ rw (e, sym same ∙ e) refl
  | inr (c, e) ↦ rw (e, sym same ∙ e) refl
]

module _ (decode_document : String → Option BriefingDocument)
    (decode_lesson : String → Option BriefingLesson)
    (decode_exception : String → Option BriefingException)
    (decode_setting : String → Option Json) where
  project_digest_same :
      (user : String) (date : Date) (d d' : Contents)
      → owned user d ≡ owned user d'
      → project_digest decode_document decode_lesson decode_exception decode_setting user date d
        ≡ project_digest decode_document decode_lesson decode_exception decode_setting user date d'
  unfolding project_digest list_timetables list_timetables_filtered
  project_digest_same user date d d' same =
      ap
        (λ rows.
          first_project_digest decode_document decode_lesson decode_exception decode_setting date
            (page 1 0 (order_by (λ t t'. ltb t'.updated_at t.updated_at) rows)))
        (listed_owned user d.timetables ∙ same ∙ sym (listed_owned user d'.timetables))

  -- The digest of a job depends on nothing but the cloud document and the timetable projects of the user
  -- of the job: it is the same on any tables where these are the same.
  pub digest_of_own :
      (today : Date) (job : BriefingJob) (d d' : Contents)
      → find_document job.user_id d ≡ find_document job.user_id d'
      → owned job.user_id d ≡ owned job.user_id d'
      → build_briefing_digest decode_document decode_lesson decode_exception decode_setting today
          job d
        ≡ build_briefing_digest decode_document decode_lesson decode_exception decode_setting today
            job d'
  unfolding build_briefing_digest cloud_document
  digest_of_own today job d d' document projects =
      let date =
        briefing_target_date decode_document decode_lesson decode_exception decode_setting today
          job.target_date in
      ap
        (λ digest.
          cloud_digest decode_document decode_lesson decode_exception decode_setting date digest
            (cloud_document job.user_id d).0)
        (project_digest_same job.user_id date d d' projects)
      ∙ ap
          (cloud_digest decode_document decode_lesson decode_exception decode_setting date (
            project_digest decode_document decode_lesson decode_exception decode_setting job.user_id
              date d'))
          (own_document job.user_id d d' document)
