-- ===== src/Store/Briefings/Tests.antt =====
-- Runs of the subscriptions of internal/store/briefings.go.
use classing_backend.Base.{◌≡◌, refl, String, Bool, true, false, ◌∷◌, [], ◌==◌, string_eq, nat_eq}
use classing_backend.Base.Dates.{parse_clock}
use classing_backend.Base.Text.{trim_space, to_upper}
use classing_backend.Base.Table.{count_where}
use classing_backend.Store.Core.{ok, err, invalid}
use classing_backend.Store.ContentRows.{BriefingSubscription, BriefingJob, Contents, blank}
use classing_backend.Store.Fixtures.{contents}
use classing_backend.Store.Briefings.{
  active_briefing_subscriptions, briefing, upsert_briefing, mark_briefing_scheduled,
  delete_briefing,
}
use classing_backend.Store.Briefings.Cancelled.{waits_for, disable_stops}

abbrev known_zone : String → Bool
known_zone s = s == "Asia/Shanghai"

abbrev daily : BriefingSubscription
daily = record {
  user_id = "b";
  enabled = 1;
  channel = "EMAIL";
  time = "07:30";
  timezone = "Asia/Shanghai";
  last_scheduled_at = 0;
  updated_at = 5;
}

abbrev waiting : BriefingJob
waiting = record {
  id = "j";
  user_id = "b";
  target_date = "2024-03-01";
  channel = "EMAIL";
  status = "PENDING";
  provider_mailbox_id = "";
  retry_count = 0;
  last_error = "";
  scheduled_at = 6;
  created_at = 6;
  updated_at = 6;
  payload = blank;
}

abbrev subscribed : Contents
subscribed = record contents { subscriptions = daily ∷ []; jobs = waiting ∷ [] }

subscribes :
    upsert_briefing known_zone 5 "b" true " email" "07:30" ""
      (record contents { jobs = waiting ∷ [] })
    ≡ (ok daily, subscribed)
unfolding upsert_briefing briefing parse_clock trim_space to_upper
subscribes = refl

bad_time : (upsert_briefing known_zone 5 "b" true "EMAIL" "24:00" "" contents).0 ≡ err invalid
unfolding upsert_briefing briefing parse_clock trim_space to_upper
bad_time = refl

abbrev off : BriefingSubscription
off = record daily { enabled = 0; updated_at = 9 }

abbrev stopped : Contents
stopped = record contents {
  subscriptions = off ∷ [];
  jobs = record waiting { status = "CANCELLED"; updated_at = 9 } ∷ [];
}

turns_off : upsert_briefing known_zone 9 "b" false "EMAIL" "07:30" "" subscribed ≡ (ok off, stopped)
unfolding upsert_briefing briefing parse_clock trim_space to_upper
turns_off = refl

disable_stops_example :
    (count_where (waits_for "b") stopped.jobs ≡ 0)
    × (count_where (λ s. s.subscription.user_id == "b") (active_briefing_subscriptions stopped) ≡ 0)
disable_stops_example =
    disable_stops known_zone 9 "b" "EMAIL" "07:30" "" off subscribed stopped turns_off

marks : (delete_briefing "b" (mark_briefing_scheduled 7 "b" 6 subscribed).1).1.subscriptions ≡ []
unfolding delete_briefing mark_briefing_scheduled
marks = refl
