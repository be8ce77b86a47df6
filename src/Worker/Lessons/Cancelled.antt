-- ===== src/Worker/Lessons/Cancelled.antt =====
-- A lesson that is cancelled for a date is not in the list of the date.
use mathlib.Core.List.{map}
use classing_backend.Base.{
  ℕ, ◌≤◌, ◌≡◌, refl, eq_of_beq, beq_refl, ◌∙◌, ap, String, Bool, false, ◌&&◌, List, [], ◌∷◌, ◌++◌,
  arith, if◌then◌else◌, ◌==◌, string_eq, inl, inr, Bool-cases, Option-cases,
}
use classing_backend.Base.Int.{ℤ}
use classing_backend.Base.Lists.{All}
use classing_backend.Base.Dates.{Date, format_date, day_number}
use classing_backend.Base.Order.{count_where-order_by}
use classing_backend.Base.Table.{select_where, count_where, select_one_passes, count_where-append}
use classing_backend.Base.Text.{to_upper}
use classing_backend.Worker.Weeks.{weekday_number}
use classing_backend.Worker.Lessons.{
  BriefingLesson, BriefingException, BriefingSchedule, normalize_lesson, remove_lesson, is_held,
  changed_lesson, completed_lesson, is_cancellation, is_addition, original_of, apply_exception,
  apply_exceptions, lesson_before, week_of, lessons_for_date,
}

abbrev has_id : String → BriefingLesson → Bool
has_id id l = l.id == id

remove_lesson-none :
    (id : String) (lessons : List BriefingLesson)
    → count_where (has_id id) (remove_lesson lessons id) ≡ 0
unfolding remove_lesson
remove_lesson-none id [] = refl
remove_lesson-none id (l ∷ lessons) = ground (arith, remove_lesson-none id lessons)

remove_lesson-le :
    (id other : String) (lessons : List BriefingLesson)
    → count_where (has_id id) (remove_lesson lessons other) ≤ count_where (has_id id) lessons
unfolding remove_lesson
remove_lesson-le id other [] = omega arith
remove_lesson-le id other (l ∷ lessons) = ground (arith, remove_lesson-le id other lessons)

-- The lesson that an exception adds has the id that the exception names.
added_id :
    (week : ℤ) (day : ℕ) (e : BriefingException) (lessons : List BriefingLesson)
    → (normalize_lesson (completed_lesson e (changed_lesson week day e (original_of e lessons)))).id
      ≡ e.lesson_id
unfolding normalize_lesson
added_id week day e lessons = elim (Option-cases (original_of e lessons)) [
  | inl none' ↦ rw none' refl
  | inr (o, found) ↦ rw found (
      eq_of_beq o.id e.lesson_id
        (select_one_passes (λ l. l.id == e.lesson_id) lessons o (ground arith)).0)
]

-- An exception brings a lesson back if it adds one and names it.
abbrev pub restores : String → BriefingException → Bool
restores id e = is_addition e && e.lesson_id == id

apply_exception-none :
    (week : ℤ) (day : ℕ) (e : BriefingException) (id : String) (lessons : List BriefingLesson)
    → restores id e ≡ false
    → count_where (has_id id) lessons ≡ 0
    → count_where (has_id id) (apply_exception week day e lessons) ≡ 0
unfolding apply_exception
apply_exception-none week day e id lessons other none' =
    let left = if is_cancellation e then remove_lesson lessons e.lesson_id else lessons in
    let new =
      normalize_lesson (completed_lesson e (changed_lesson week day e (original_of e lessons))) in
    let gone : count_where (has_id id) left ≡ 0 =
      ground (arith, remove_lesson-le id e.lesson_id lessons) in
    elim (Bool-cases (is_addition e)) [
      | inl c ↦
          let apart : (new.id == id) ≡ false = rw (added_id week day e lessons) (ground arith) in
          rw c (ground (arith, count_where-append (has_id id) left (new ∷ []), apart, gone))
      | inr c ↦ rw c gone
    ]

apply_exceptions-none :
    (week : ℤ) (day : ℕ) (date id : String) (es : List BriefingException)
    (lessons : List BriefingLesson)
    → All (λ e. (e.date == date && restores id e) ≡ false) es
    → count_where (has_id id) lessons ≡ 0
    → count_where (has_id id) (apply_exceptions week day date es lessons) ≡ 0
unfolding apply_exceptions
apply_exceptions-none week day date id [] lessons a none' = none'
apply_exceptions-none week day date id (e ∷ es) lessons a none' =
    elim (Bool-cases (e.date == date)) [
      | inl c ↦ rw c (
          apply_exceptions-none week day date id es (apply_exception week day e lessons) a.1
            (apply_exception-none week day e id lessons (ground arith) none'))
      | inr c ↦ rw c (apply_exceptions-none week day date id es lessons a.1 none')
    ]

apply_exceptions-append :
    (week : ℤ) (day : ℕ) (date : String) (es es' : List BriefingException)
    (lessons : List BriefingLesson)
    → apply_exceptions week day date (es ++ es') lessons
      ≡ apply_exceptions week day date es' (apply_exceptions week day date es lessons)
unfolding apply_exceptions
apply_exceptions-append week day date [] es' lessons = refl
apply_exceptions-append week day date (e ∷ es) es' lessons =
    apply_exceptions-append week day date es es'
      (if e.date == date then apply_exception week day e lessons else lessons)

cancel-none :
    (week : ℤ) (day : ℕ) (e : BriefingException) (lessons : List BriefingLesson)
    → (e.lesson_id == "") ≡ false
    → to_upper e.exception_type ≡ "CANCEL"
    → count_where (has_id e.lesson_id) (apply_exception week day e lessons) ≡ 0
unfolding apply_exception
cancel-none week day e lessons named kind =
    rw kind (rw named (remove_lesson-none e.lesson_id lessons))

after_cancel :
    (week : ℤ) (day : ℕ) (today : String) (e : BriefingException) (later : List BriefingException)
    (lessons : List BriefingLesson)
    → e.date ≡ today
    → (e.lesson_id == "") ≡ false
    → to_upper e.exception_type ≡ "CANCEL"
    → All (λ x. (x.date == today && restores e.lesson_id x) ≡ false) later
    → count_where (has_id e.lesson_id) (apply_exceptions week day today (e ∷ later) lessons) ≡ 0
unfolding apply_exceptions
after_cancel week day today e later lessons on named kind after =
    rw (ap (λ d. d == today) on ∙ beq_refl today) (
      apply_exceptions-none week day today e.lesson_id later (apply_exception week day e lessons)
        after (cancel-none week day e lessons named kind))

-- A cancelled lesson is not listed: where an exception of the date, whose type is CANCEL in any case of
-- letters, names a lesson, and no later exception of the date that reschedules or makes up a lesson names the
-- same one, no lesson of the list has that id.
pub cancelled_lesson_absent :
    (s : BriefingSchedule) (date : Date) (earlier later : List BriefingException)
    (e : BriefingException)
    → s.exceptions ≡ earlier ++ e ∷ later
    → e.date ≡ format_date date
    → (e.lesson_id == "") ≡ false
    → to_upper e.exception_type ≡ "CANCEL"
    → All (λ x. (x.date == format_date date && restores e.lesson_id x) ≡ false) later
    → count_where (λ l. l.id == e.lesson_id) (lessons_for_date s date) ≡ 0
unfolding lessons_for_date
cancelled_lesson_absent s date earlier later e split on named kind after =
    let week = week_of s date in
    let day = weekday_number (day_number date) in
    let today = format_date date in
    let held = select_where (is_held week day) (map normalize_lesson s.lessons) in
    let before = apply_exceptions week day today earlier held in
    count_where-order_by lesson_before (has_id e.lesson_id)
      (apply_exceptions week day today s.exceptions held)
    ∙ ap (λ es. count_where (has_id e.lesson_id) (apply_exceptions week day today es held)) split
    ∙ ap (count_where (has_id e.lesson_id))
        (apply_exceptions-append week day today earlier (e ∷ later) held)
    ∙ after_cancel week day today e later before on named kind after
