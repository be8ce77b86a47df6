-- ===== src/Store/Briefings.antt =====
-- internal/store/briefings.go, the subscriptions: who gets a daily briefing, and when. The time zones
-- that time.LoadLocation knows are an argument.
pub mod Cancelled
mod Tests
use Prim.Native.String.{slice}
use classing_backend.Base.{
  ℕ, String, Bool, true, false, not, ◌&&◌, ◌||◌, Option, none, some, List, [], ◌∷◌, ◌++◌, map, ltb,
  if◌then◌else◌, ◌==◌, nat_eq, string_eq,
}
use classing_backend.Base.Dates.{parse_clock}
use classing_backend.Base.Table.{select_one, select_where, count_where, update_where, delete_where}
use classing_backend.Base.Text.{trim_space, to_upper, byte_count}
use classing_backend.Store.Core.{
  invalid, no_rows, normalize_db_error, Action, pure, fail, gets, or_fail, ◌>>=◌, ◌>>◌, fail_if,
  modify,
}
use classing_backend.Store.Rows.{User, status_active}
use classing_backend.Store.ContentRows.{BriefingSubscription, BriefingJob, blank, Contents}

-- status IN ('PENDING', 'RETRY')
abbrev pub is_waiting : BriefingJob → Bool
is_waiting j = j.status == "PENDING" || j.status == "RETRY"

abbrev pub find_subscription : String → Contents → Option BriefingSubscription
find_subscription user d = select_one (λ b. b.user_id == user) d.subscriptions

pub briefing : String → Action Contents BriefingSubscription
briefing user = do found ← gets (find_subscription user); or_fail found (normalize_db_error no_rows)

pub record DueSubscription : Type 0 where
  pub subscription : BriefingSubscription
  pub email : String
  pub username : String

-- The subscription with its account, where it is on, asks for mail and the account is active.
abbrev pub due_subscription : List User → BriefingSubscription → List DueSubscription
due_subscription users b = elim (select_one (λ u. u.id == b.user_id) users) [
  | none ↦ []
  | some u ↦
      if b.enabled == 1
        && (b.channel == "EMAIL" || b.channel == "BOTH")
        && u.status == status_active
      then record { subscription = b; email = u.email; username = u.username } ∷ []
      else []
]

abbrev pub join_accounts : List User → List BriefingSubscription → List DueSubscription
join_accounts users [] = []
join_accounts users (b ∷ bs) = due_subscription users b ++ join_accounts users bs

unfoldable pub active_briefing_subscriptions : Contents → List DueSubscription
active_briefing_subscriptions d = join_accounts d.accounts.users d.subscriptions

pub mark_briefing_scheduled : ℕ → String → ℕ → Action Contents (Unit {0})
mark_briefing_scheduled now user at = modify λ d. record d {
  subscriptions =
      update_where (λ b. b.user_id == user)
        (λ b. record b { last_scheduled_at = at; updated_at = now }) d.subscriptions;
}

abbrev pub is_channel : String → Bool
is_channel c = c == "APP_NOTIFICATION" || c == "EMAIL" || c == "BOTH"

abbrev pub is_delivery_time : String → Bool
is_delivery_time s =
    byte_count s == 5
    && slice s 2 3 == ":"
    && (elim (parse_clock s) [ none ↦ false | some _ ↦ true ])

-- INSERT INTO briefing_subscriptions ... ON CONFLICT(user_id) DO UPDATE
abbrev pub put_subscription : BriefingSubscription → Contents → Contents
put_subscription row d = record d {
  subscriptions =
      if ltb 0 (count_where (λ b. b.user_id == row.user_id) d.subscriptions)
      then update_where (λ b. b.user_id == row.user_id)
          (λ b. record b {
            enabled = row.enabled;
            channel = row.channel;
            time = row.time;
            timezone = row.timezone;
            updated_at = row.updated_at;
          })
          d.subscriptions
      else d.subscriptions ++ row ∷ [];
}

abbrev pub is_cancelled_with : String → BriefingJob → Bool
is_cancelled_with user j =
    j.user_id == user && is_waiting j && (j.channel == "EMAIL" || j.channel == "EMAIL_TEST")

abbrev pub cancelled : ℕ → BriefingJob → BriefingJob
cancelled now j = record j {
  status = "CANCELLED";
  payload = blank;
  last_error = "";
  updated_at = now;
}

abbrev pub cancel_jobs : ℕ → String → Contents → Contents
cancel_jobs now user d = record d {
  jobs = update_where (is_cancelled_with user) (cancelled now) d.jobs;
}

pub upsert_briefing :
    (String → Bool)
    → ℕ
    → String
    → Bool
    → String
    → String
    → String
    → Action Contents BriefingSubscription
upsert_briefing known_zone now user enabled channel delivery_time timezone = do
  let channel' = to_upper (trim_space channel)
  fail_if (not (is_channel channel')) invalid
  fail_if (not (is_delivery_time delivery_time)) invalid
  let timezone' = if timezone == "" then "Asia/Shanghai" else timezone
  fail_if (not (known_zone timezone')) invalid
  modify (
      put_subscription (record {
        user_id = user;
        enabled = if enabled then 1 else 0;
        channel = channel';
        time = delivery_time;
        timezone = timezone';
        last_scheduled_at = 0;
        updated_at = now;
      }))
  if enabled then pure tt else modify (cancel_jobs now user)
  briefing user

pub delete_briefing : String → Action Contents (Unit {0})
delete_briefing user =
    modify λ d. record d { subscriptions = delete_where (λ b. b.user_id == user) d.subscriptions }
