-- ===== src/Worker/Schedule/Due.antt =====
-- The scheduler queues no briefing before it is due.
use classing_backend.Base.{
  ℕ, ◌≡◌, refl, ◌∙◌, String, Bool, true, false, not, ◌&&◌, ◌||◌, Option, none, some, List, [], ◌∷◌,
  ◌++◌, ◌⊎◌, arith, ltb, ◌==◌, nat_eq, string_eq, inl, inr, Bool-cases, Option-cases,
}
use classing_backend.Base.Table.{count_where, count_where-append, count_where_mono}
use classing_backend.Store.ContentRows.{BriefingSubscription, BriefingJob, blank, Contents}
use classing_backend.Store.Briefings.{DueSubscription, active_briefing_subscriptions}
use classing_backend.Store.Jobs.{schedule_briefing_job, add_job, is_same_job, new_job}
use classing_backend.Worker.Schedule.Clock.{is_later, later-minute}
use classing_backend.Worker.Schedule.{
  Moment, delivery_minute, due_date, schedule_item, schedule_items, schedule,
}

-- The briefings by mail of a user for a date.
abbrev pub is_briefing_of : String → String → BriefingJob → Bool
is_briefing_of user date j = j.user_id == user && j.target_date == date && j.channel == "EMAIL"

abbrev pub is_some {ℓ} : {A : Type ℓ} → Option A → Bool
is_some none = false
is_some (some x) = true

-- Queueing leaves the jobs alone, or adds one that no row has the user, the date and the channel of.
pub queued_jobs :
    (now : ℕ) (id user date : String) (d : Contents)
    → ((schedule_briefing_job now id user date "EMAIL" now d).1.jobs ≡ d.jobs)
      ⊎ (((schedule_briefing_job now id user date "EMAIL" now d).1.jobs
            ≡ d.jobs ++ new_job now id user date "EMAIL" now blank ∷ [])
          × (count_where (is_briefing_of user date) d.jobs ≡ 0))
unfolding schedule_briefing_job add_job
queued_jobs now id user date d =
    let row = new_job now id user date "EMAIL" now blank in
    elim (Bool-cases (ltb 0 (count_where (is_same_job row) d.jobs))) [
      | inl e ↦ inl (ground arith)
      | inr e ↦ inr (
        ground arith,
        ground (
          arith,
          count_where_mono (is_briefing_of user date) (is_same_job row) d.jobs
              (λ j h. ground arith),
        ),
      )
    ]

module _ (in_zone : String → Option (ℕ → Moment)) (job_id : Contents → String) (now : ℕ) where
  pub idle_item :
      (b : BriefingSubscription) (d : Contents)
      → due_date in_zone job_id now b ≡ none
      → schedule_item in_zone job_id now b d ≡ d
  unfolding schedule_item
  idle_item b d e = ground arith

  pub due_item :
      (b : BriefingSubscription) (date : String) (d : Contents)
      → due_date in_zone job_id now b ≡ some date
      → schedule_item in_zone job_id now b d
        ≡ (schedule_briefing_job now (job_id d) b.user_id date "EMAIL" now d).1
  unfolding schedule_item
  due_item b date d e = ground arith

  item_keeps :
      (user : String) (b : BriefingSubscription) (d : Contents)
      → (b.user_id == user && is_some (due_date in_zone job_id now b)) ≡ false
      → count_where (λ j. j.user_id == user) (schedule_item in_zone job_id now b d).jobs
        ≡ count_where (λ j. j.user_id == user) d.jobs
  item_keeps user b d off = elim (Option-cases (due_date in_zone job_id now b)) [
    | inl e ↦ rw (idle_item b d e) refl
    | inr (date, e) ↦
        let other : (b.user_id == user) ≡ false = ground arith in
        rw (due_item b date d e) (elim (queued_jobs now (job_id d) b.user_id date d) [
          | inl same ↦ rw same refl
          | inr (added, _) ↦ rw added (
              count_where-append (λ j. j.user_id == user) d.jobs
                (new_job now (job_id d) b.user_id date "EMAIL" now blank ∷ [])
              ∙ ground (arith, other))
        ])
  ]

  items_keep :
      (user : String) (items : List DueSubscription) (d : Contents)
      → count_where
          (λ s.
            s.subscription.user_id == user && is_some (due_date in_zone job_id now s.subscription))
          items
        ≡ 0
      → count_where (λ j. j.user_id == user) (schedule_items in_zone job_id now items d).jobs
        ≡ count_where (λ j. j.user_id == user) d.jobs
  unfolding schedule_items
  items_keep user [] d none' = refl
  items_keep user (s ∷ items) d none' =
      items_keep user items (schedule_item in_zone job_id now s.subscription d) (ground arith)
      ∙ item_keeps user s.subscription d (ground arith)

  -- What lets a subscription wait: its time zone is unknown, its time is the text hh:mm of a later minute than
  -- the one of the day in its zone, or it has been scheduled on the same date of its zone.
  abbrev pub waits : BriefingSubscription → Bool
  waits b = elim (in_zone b.timezone) [
    | none ↦ true
    | some at ↦
        is_later (at now).minute b.time
        || (ltb 0 b.last_scheduled_at && (at b.last_scheduled_at).date == (at now).date)
  ]

  waits-due_date :
      (b : BriefingSubscription) → is_some (due_date in_zone job_id now b) ≡ true → waits b ≡ false
  unfolding due_date
  waits-due_date b h = elim (Option-cases (in_zone b.timezone)) [
    | inl e ↦ absurd (ground arith)
    | inr (at, e) ↦ elim (Bool-cases (is_later (at now).minute b.time)) [
      | inl l ↦
          let (minute, lt, f) = later-minute (at now).minute b.time l in
          absurd (ground (arith, lt, f))
      | inr l ↦ elim (Option-cases (delivery_minute b.time)) [
        | inl f ↦ absurd (ground arith)
        | inr (minute, f) ↦ ground arith
      ]
    ]
  ]

  -- No briefing is queued for a user before its time: where every subscription of the user that can be
  -- scheduled has to wait (its time zone is unknown, its time is the text hh:mm of a later minute than the
  -- one of the day in its zone, or it has been scheduled on the same date of its zone), a round of the
  -- scheduler adds no job of the user.
  pub schedule-waits :
      (user : String) (d : Contents)
      → count_where
          (λ s. s.subscription.user_id == user && not (waits s.subscription))
          (active_briefing_subscriptions d)
        ≡ 0
      → count_where (λ j. j.user_id == user) (schedule in_zone job_id now d).jobs
        ≡ count_where (λ j. j.user_id == user) d.jobs
  unfolding schedule
  schedule-waits user d none' = items_keep user (active_briefing_subscriptions d) d (
      omega (
        arith,
        none',
        count_where_mono
            (λ s.
              s.subscription.user_id == user
              && is_some (due_date in_zone job_id now s.subscription))
            (λ s. s.subscription.user_id == user && not (waits s.subscription))
            (active_briefing_subscriptions d)
            (λ s h. ground (arith, waits-due_date s.subscription)),
      ))
