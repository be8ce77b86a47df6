-- ===== src/Worker/Schedule/Tests.antt =====
-- Runs of the scheduler.
use mathlib.Core.List.{map}
use classing_backend.Base.{
  ℕ, ◌≡◌, refl, String, Option, none, some, List, ◌∷◌, [], if◌then◌else◌, ◌==◌, string_eq, nat_eq,
}
use classing_backend.Base.Decimal.{parse_int}
use classing_backend.Base.Table.{count_where}
use classing_backend.Base.Text.{split_on}
use classing_backend.Store.ContentRows.{BriefingSubscription, BriefingJob, Contents}
use classing_backend.Store.Fixtures.{contents}
use classing_backend.Store.Briefings.{active_briefing_subscriptions}
use classing_backend.Store.Jobs.{schedule_briefing_job, add_job}
use classing_backend.Worker.Schedule.{
  Moment, delivery_minute, due_date, schedule_item, schedule_items, schedule,
}
use classing_backend.Worker.Schedule.Due.{schedule-waits}
use classing_backend.Worker.Schedule.Clock.{some_below, clock_text}
use classing_backend.Base.Decimal.{format_int, format_padded}
use classing_backend.Base.Text.{char_of}

-- A day of 100 minutes, each a millisecond long.
abbrev moment : ℕ → Moment
moment n = record { date = if n == 0 then "none" else "2024-03-01"; minute = n }

abbrev in_zone : String → Option (ℕ → Moment)
in_zone s = if s == "UTC" then some moment else none

abbrev job_id : Contents → String
job_id d = "j"

abbrev daily : BriefingSubscription
daily = record {
  user_id = "b";
  enabled = 1;
  channel = "BOTH";
  time = "01:30";
  timezone = "UTC";
  last_scheduled_at = 0;
  updated_at = 5;
}

abbrev subscribed : Contents
subscribed = record contents { subscriptions = daily ∷ [] }

abbrev dates : Contents → List (String × String)
dates d = map (λ (j : BriefingJob). (j.user_id, j.target_date)) d.jobs

due : dates (schedule in_zone job_id 90 subscribed) ≡ ("b", "2024-03-01") ∷ []
unfolding schedule schedule_items schedule_item due_date delivery_minute parse_int split_on
    active_briefing_subscriptions schedule_briefing_job add_job
due = refl

again :
    dates (schedule in_zone job_id 95 (schedule in_zone job_id 90 subscribed))
    ≡ ("b", "2024-03-01") ∷ []
unfolding schedule schedule_items schedule_item due_date delivery_minute parse_int split_on
    active_briefing_subscriptions schedule_briefing_job add_job
again = refl

schedule-waits_example :
    count_where (λ j. j.user_id == "b") (schedule in_zone job_id 89 subscribed).jobs
    ≡ count_where (λ j. j.user_id == "b") subscribed.jobs
unfolding some_below clock_text format_padded format_int char_of active_briefing_subscriptions
schedule-waits_example = schedule-waits in_zone job_id 89 "b" subscribed refl
