-- ===== src/Store/Jobs.antt =====
-- internal/store/briefings.go, the queue of mail: a job waits, is claimed, and is sent or fails.
pub mod Claims
pub mod Once
pub mod Turns
pub mod Failures
mod Tests
use Prim.Native.String.{slice}
use classing_backend.Base.{
  ℕ, ◌+◌, ◌*◌, String, Bool, true, false, not, ◌&&◌, ◌||◌, Option, none, some, List, [], ◌∷◌, ◌++◌,
  leb, ltb, if◌then◌else◌, ◌==◌, nat_eq, string_eq,
}
use mathlib.Core.List.{reverse}
use classing_backend.Base.Lists.{take}
use classing_backend.Base.Order.{order_by, page, head?}
use classing_backend.Base.Table.{select_one, select_where, count_where, update_where}
use classing_backend.Base.Text.{trim_space, to_upper, byte_count}
use classing_backend.Store.Core.{
  Error, not_found, conflict, invalid, duplicate_key, no_rows, normalize_db_error, Result, ok, err,
  Action, pure, fail, gets, or_fail, ◌>>=◌, ◌>>◌, fail_if, modify, transaction, commit, insert_row,
}
use classing_backend.Store.Rows.{User}
use classing_backend.Store.ContentRows.{
  BriefingJob, BriefingJobLog, JobPayload, blank, reset_token, verification_code, change_code,
  change_notice, Contents,
}
use classing_backend.Store.Events.{text_ltb}
use classing_backend.Store.Briefings.{is_waiting}

pub record ClaimedJob : Type 0 where
  pub job : BriefingJob
  pub email : String
  pub username : String

abbrev pub has_account : List User → BriefingJob → Bool
has_account users j = ltb 0 (count_where (λ u. u.id == j.user_id) users)

-- The rows that can be claimed: those of an account, waiting, and due.
abbrev pub is_claimable : ℕ → List User → BriefingJob → Bool
is_claimable now users j = has_account users j && is_waiting j && leb j.scheduled_at now

-- ORDER BY j.scheduled_at ASC LIMIT 1
abbrev pub next_job : ℕ → Contents → Option BriefingJob
next_job now d = head? (
    order_by (λ j k. ltb j.scheduled_at k.scheduled_at)
      (select_where (is_claimable now d.accounts.users) d.jobs))

abbrev pub processing : ℕ → BriefingJob → BriefingJob
processing now j = record j { status = "PROCESSING"; updated_at = now }

unfoldable pub claim_briefing_job : ℕ → Action Contents ClaimedJob
claim_briefing_job now = transaction do
  found ← gets (next_job now)
  item ← or_fail found (normalize_db_error no_rows)
  owner ← gets (λ d. select_one (λ u. u.id == item.user_id) d.accounts.users)
  user ← or_fail owner (normalize_db_error no_rows)
  affected ← gets (λ d. count_where (λ j. j.id == item.id && is_waiting j) d.jobs)
  modify λ d. record d {
    jobs = update_where (λ j. j.id == item.id && is_waiting j) (processing now) d.jobs;
  }
  fail_if (not (affected == 1)) conflict
  commit (record {
    job = record item { status = "PROCESSING" };
    email = user.email;
    username = user.username;
  })

abbrev pub sent : ℕ → String → BriefingJob → BriefingJob
sent now mailbox j = record j {
  status = "SENT";
  provider_mailbox_id = mailbox;
  payload = blank;
  updated_at = now;
}

unfoldable pub complete_briefing_job : ℕ → String → String → Action Contents (Unit {0})
complete_briefing_job now id mailbox = transaction do
  modify λ d. record d { jobs = update_where (λ j. j.id == id) (sent now mailbox) d.jobs }
  commit tt

-- The first bytes of a message; a character that the cut would split is left out.
unfoldable pub prefix_error : String → ℕ → String
prefix_error message max =
    let m = trim_space message in if ltb max (byte_count m) then slice m 0 max else m

-- Five minutes more for each failure, and no other attempt after the fifth.
abbrev pub failed : ℕ → String → ℕ → BriefingJob → BriefingJob
failed now message retry_count j = record j {
  status = if leb 4 retry_count then "FAILED" else "RETRY";
  retry_count = j.retry_count + 1;
  last_error = message;
  scheduled_at = now + (if leb 4 retry_count then 0 else (retry_count + 1) * (5 * 60 * 1000));
  updated_at = now;
}

unfoldable pub fail_briefing_job : ℕ → String → String → ℕ → Action Contents (Unit {0})
fail_briefing_job now id message retry_count = modify λ d. record d {
  jobs = update_where (λ j. j.id == id) (failed now (prefix_error message 500) retry_count) d.jobs;
}

abbrev pub requeued : ℕ → BriefingJob → BriefingJob
requeued now j = record j {
  status = "PENDING";
  retry_count = j.retry_count + 1;
  last_error = "";
  updated_at = now;
}

pub retry_briefing_job : ℕ → String → Action Contents (Unit {0})
retry_briefing_job now id = do
  affected ← gets (λ d. count_where (λ j. j.id == id) d.jobs)
  modify λ d. record d { jobs = update_where (λ j. j.id == id) (requeued now) d.jobs }
  fail_if (affected == 0) not_found

abbrev pub is_same_job : BriefingJob → BriefingJob → Bool
is_same_job row j =
    j.id == row.id
    || (j.user_id == row.user_id && j.target_date == row.target_date && j.channel == row.channel)

-- INSERT INTO briefing_jobs: one job of a user for a date and a channel.
unfoldable pub add_job : BriefingJob → Action Contents (Unit {0})
add_job row d = elim (insert_row (is_same_job row) row d.jobs) [
  | none ↦ fail (normalize_db_error duplicate_key) d
  | some rows ↦ (ok tt, record d { jobs = rows })
]

abbrev pub new_job : ℕ → String → String → String → String → ℕ → JobPayload → BriefingJob
new_job now id user target_date channel scheduled_at payload = record {
  id = id;
  user_id = user;
  target_date = target_date;
  channel = channel;
  status = "PENDING";
  provider_mailbox_id = "";
  retry_count = 0;
  last_error = "";
  scheduled_at = scheduled_at;
  created_at = now;
  updated_at = now;
  payload = payload;
}

pub queue_briefing_job : ℕ → String → String → String → String → ℕ → Action Contents BriefingJob
queue_briefing_job now id user target_date channel scheduled_at = do
  let item = new_job now id user target_date channel scheduled_at blank
  add_job item
  pure item

unfoldable pub schedule_briefing_job :
    ℕ → String → String → String → String → ℕ → Action Contents BriefingJob
schedule_briefing_job now id user target_date channel scheduled_at = transaction do
  let item = new_job now id user target_date channel scheduled_at blank
  add_job item
  modify λ d. record d {
    subscriptions =
        update_where (λ b. b.user_id == user && b.enabled == 1)
          (λ b. record b { last_scheduled_at = scheduled_at; updated_at = now }) d.subscriptions;
  }
  commit item

-- The mails that are due at once. Their id stands for the date, so that none is a duplicate.
unfoldable pub queue_mail_job :
    ℕ → String → String → String → JobPayload → Action Contents BriefingJob
queue_mail_job now id user channel payload = do
  let item = new_job now id user id channel now payload
  add_job item
  pure item

unfoldable pub queue_password_reset_job :
    ℕ → String → String → String → ℕ → Action Contents BriefingJob
unfolding queue_mail_job
queue_password_reset_job now id user token expires_at =
    queue_mail_job now id user "PASSWORD_RESET" (reset_token token expires_at)

unfoldable pub queue_email_verification_job :
    ℕ → String → String → String → ℕ → Action Contents BriefingJob
unfolding queue_mail_job
queue_email_verification_job now id user code expires_at =
    queue_mail_job now id user "EMAIL_VERIFICATION" (verification_code code expires_at)

unfoldable pub queue_email_change_verification_job :
    ℕ → String → String → String → ℕ → String → Action Contents BriefingJob
unfolding queue_mail_job
queue_email_change_verification_job now id user code expires_at new_email =
    queue_mail_job now id user "EMAIL_CHANGE_VERIFY" (change_code code expires_at new_email)

unfoldable pub queue_email_change_notify_job :
    ℕ → String → String → String → String → Action Contents BriefingJob
unfolding queue_mail_job
queue_email_change_notify_job now id user new_email old_email =
    queue_mail_job now id user "EMAIL_CHANGE_NOTIFY" (change_notice new_email old_email)

pub list_briefing_jobs : ℕ → ℕ → Contents → List BriefingJob × ℕ
list_briefing_jobs limit offset d = (
  page limit offset (order_by (λ j k. ltb k.created_at j.created_at) d.jobs),
  count_where (λ j. true) d.jobs,
)
