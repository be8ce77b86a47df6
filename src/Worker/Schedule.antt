-- ===== src/Worker/Schedule.antt =====
-- internal/worker/worker.go, what is done every minute: the briefings that are due are queued, and old
-- audit rows are deleted.
mod Tests
pub mod Clock
pub mod Due
pub mod Queues
use classing_backend.Base.{
  ℕ, ◌+◌, ◌*◌, String, Bool, true, false, not, ◌&&◌, ◌||◌, Option, none, some, List, [], ◌∷◌, ltb,
  if◌then◌else◌, ◌==◌, string_eq,
}
use classing_backend.Base.Int.{ℤ, pos, negsuc, add_ℤ, ltb_ℤ, negated, magnitude, wrap64, clamp64}
use classing_backend.Base.Decimal.{parse_int}
use classing_backend.Base.Text.{split_on, trim_space}
use classing_backend.Store.ContentRows.{BriefingSubscription, Contents}
use classing_backend.Store.Briefings.{DueSubscription, active_briefing_subscriptions}
use classing_backend.Store.Jobs.{schedule_briefing_job}
use classing_backend.Store.Settings.{setting, cleanup_audit_logs}

-- A time in a time zone: the text of its date, and the minute of the day.
pub record Moment : Type 0 where
  pub date : String
  pub minute : ℕ

-- A text that is not a number counts as 0, and a number that is too large as the nearest int64.
abbrev pub number_or_zero : String → ℤ
number_or_zero s = elim (parse_int s) [ none ↦ pos 0 | some n ↦ clamp64 n ]

-- hour * 60, before it wraps around
abbrev pub minutes_of : ℤ → ℤ
minutes_of (pos n) = pos (n * 60)
minutes_of (negsuc n) = negated (60 * n + 60)

unfoldable pub delivery_minute : String → Option ℤ
delivery_minute time = elim (split_on b':' time) [
  | hour ∷ minute ∷ [] ↦
      some (wrap64 (add_ℤ (minutes_of (number_or_zero hour)) (number_or_zero minute)))
  | _ ↦ none
]

-- The time zones that are known, the ids that are drawn for jobs, and the clock.
module _ (in_zone : String → Option (ℕ → Moment)) (job_id : Contents → String) (now : ℕ) where
  -- The date that a subscription is due for, if it is due.
  unfoldable pub due_date : BriefingSubscription → Option String
  due_date b = elim (in_zone b.timezone) [
    | none ↦ none
    | some at ↦ (elim (delivery_minute b.time) [
      | none ↦ none
      | some minute ↦
          if ltb_ℤ (pos (at now).minute) minute
          then none
          else if ltb 0 b.last_scheduled_at && (at b.last_scheduled_at).date == (at now).date
          then none
          else some (at now).date
    ])
  ]

  -- A job that cannot be queued is left out.
  unfoldable pub schedule_item : BriefingSubscription → Contents → Contents
  schedule_item b d = elim (due_date b) [
    | none ↦ d
    | some date ↦ (schedule_briefing_job now (job_id d) b.user_id date "EMAIL" now d).1
  ]

  unfoldable pub schedule_items : List DueSubscription → Contents → Contents
  schedule_items [] d = d
  schedule_items (s ∷ ss) d = schedule_items ss (schedule_item s.subscription d)

  pub schedule : Contents → Contents
  schedule d = schedule_items (active_briefing_subscriptions d) d

pub cleanup_old_audit_logs : ℕ → Contents → Contents
cleanup_old_audit_logs now d =
    let raw = trim_space (setting "audit.retention_days" "" d) in
    if raw == "" then d else (elim (parse_int raw) [
      | none ↦ d
      | some days ↦
          if ltb_ℤ days (pos 1) || ltb_ℤ (pos 3650) days
          then d
          else (cleanup_audit_logs now (magnitude days) d).1
    ])
