-- ===== src/Worker/Schedule/Queues.antt =====
-- The scheduler queues every briefing that is due.
use classing_backend.Base.{
  ℕ, ◌≡◌, String, Bool, false, not, ◌&&◌, Option, none, some, List, [], ◌∷◌, ltb, ◌==◌, nat_eq,
  string_eq,
}
use classing_backend.Base.Table.{count_where}
use classing_backend.Store.ContentRows.{BriefingSubscription, Contents}
use classing_backend.Store.Briefings.{DueSubscription}
use classing_backend.Worker.Schedule.Clock.{is_reached}
use classing_backend.Worker.Schedule.{Moment, schedule_item}

module _ (in_zone : String → Option (ℕ → Moment)) (job_id : Contents → String) (now : ℕ) where
  -- What makes a subscription due on a date of its zone: its time is the text hh:mm of a minute of the day that
  -- has come, and it has not been scheduled on that date.
  abbrev pub is_due_on : String → BriefingSubscription → Bool
  is_due_on date b = elim (in_zone b.timezone) [
    | none ↦ false
    | some at ↦
        (at now).date == date
        && is_reached (at now).minute b.time
        && not (ltb 0 b.last_scheduled_at && (at b.last_scheduled_at).date == (at now).date)
  ]

  -- The ids that are drawn in a round are new when they are drawn.
  abbrev pub NewIds : List DueSubscription → Contents → Type 0
  NewIds [] d = Unit
  NewIds (s ∷ items) d =
      (count_where (λ j. j.id == job_id d) d.jobs ≡ 0)
      × NewIds items (schedule_item in_zone job_id now s.subscription d)
