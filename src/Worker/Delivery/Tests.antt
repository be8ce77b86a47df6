-- ===== src/Worker/Delivery/Tests.antt =====
-- Runs of the delivery of a mail.
use mathlib.Core.List.{map}
use classing_backend.Base.{
  ℕ, ◌≡◌, refl, String, false, Option, none, some, List, ◌∷◌, [], if◌then◌else◌, ◌==◌, string_eq,
  nat_eq,
}
use classing_backend.Base.Text.{to_lower, to_upper, trim_space, char_of}
use classing_backend.Base.Order.{order_by, insert_by}
use classing_backend.Store.Core.{ok}
use classing_backend.Store.ContentRows.{Mailbox, BriefingJob, Contents, blank}
use classing_backend.Store.Fixtures.{contents}
use classing_backend.Store.Jobs.{
  ClaimedJob, claim_briefing_job, complete_briefing_job, fail_briefing_job, new_job, prefix_error,
}
use classing_backend.Store.JobLogs.{add_briefing_job_log}
use classing_backend.Store.Mailboxes.{acquire_mailbox_excluding, release_mailbox_reservation}
use classing_backend.Worker.Mail.{BriefingDigest, classify_mail_error, contains}
use classing_backend.Worker.Delivery.{
  Outside, Outcome, job_log, job_logs_of, tried_mailbox, dropped_mailbox, give_up, pool_exhausted,
  delivery_loop, close_job, deliver_claimed, deliver_one,
}
use classing_backend.Worker.Delivery.Settled.{IsSettled, deliver_settles}

abbrev broken : Mailbox
broken = record {
  id = "m1";
  name = "first";
  smtp_host = "smtp.example.org";
  smtp_port = 465;
  username = "";
  password_secret_ref = "env:SMTP";
  from_address = "a@example.org";
  daily_quota = 2;
  used_today = 0;
  usage_date = "2024-03-01";
  enabled = 1;
  created_at = 1;
  updated_at = 1;
}

abbrev working : Mailbox
working = record broken { id = "m2"; created_at = 2 }

abbrev queued : Contents
queued = record contents {
  jobs = new_job 1 "j1" "b" "2024-03-01" "EMAIL" 10 blank ∷ [];
  mailboxes = broken ∷ working ∷ [];
}

abbrev no_lessons : BriefingDigest
no_lessons = record { target_date = "2024-03-01"; available = false; source = ""; lessons = [] }

-- The first mailbox cannot be reached.
abbrev outside : Outside
outside = record {
  encode = λ details. none;
  log_id = λ d. "l";
  send = λ m c digest. record {
    steps = [];
    failure = if m.id == "m1" then some "smtp connect tcp: timeout" else none;
  };
  error_text = λ e. "";
  build = λ c d. no_lessons;
  now = 30;
  today = "2024-03-01";
}

abbrev statuses : Option Outcome × Contents → List (String × String)
statuses (o, d) = map (λ (j : BriefingJob). (j.status, j.provider_mailbox_id)) d.jobs

abbrev used : Option Outcome × Contents → List ℕ
used (o, d) = map (λ (m : Mailbox). m.used_today) d.mailboxes

second_mailbox : statuses (deliver_one outside queued) ≡ ("SENT", "m2") ∷ []
unfolding deliver_one deliver_claimed claim_briefing_job complete_briefing_job delivery_loop
    close_job acquire_mailbox_excluding release_mailbox_reservation order_by insert_by tried_mailbox
    dropped_mailbox job_log job_logs_of add_briefing_job_log classify_mail_error contains to_lower
    to_upper trim_space char_of prefix_error
second_mailbox = refl

gives_back : used (deliver_one outside queued) ≡ 0 ∷ 1 ∷ []
unfolding deliver_one deliver_claimed claim_briefing_job complete_briefing_job delivery_loop
    close_job acquire_mailbox_excluding release_mailbox_reservation order_by insert_by tried_mailbox
    dropped_mailbox job_log job_logs_of add_briefing_job_log classify_mail_error contains to_lower
    to_upper trim_space char_of prefix_error
gives_back = refl

exhausted :
    statuses (deliver_one outside (record queued { mailboxes = broken ∷ [] })) ≡ ("RETRY", "") ∷ []
unfolding deliver_one deliver_claimed claim_briefing_job fail_briefing_job delivery_loop close_job
    acquire_mailbox_excluding release_mailbox_reservation order_by insert_by tried_mailbox
    dropped_mailbox job_log job_logs_of add_briefing_job_log classify_mail_error contains to_lower
    to_upper trim_space char_of prefix_error give_up pool_exhausted
exhausted = refl

abbrev taken : ClaimedJob
taken = record {
  job = record (new_job 1 "j1" "b" "2024-03-01" "EMAIL" 10 blank) { status = "PROCESSING" };
  email = "bob@example.org";
  username = "bob";
}

abbrev busy : Contents
busy = record queued {
  jobs =
      record (new_job 1 "j1" "b" "2024-03-01" "EMAIL" 10 blank) {
        status = "PROCESSING";
        updated_at = 30;
      }
      ∷ [];
}

claims : claim_briefing_job 30 queued ≡ (ok taken, busy)
unfolding claim_briefing_job order_by insert_by
claims = refl

deliver_settles_example : IsSettled outside taken no_lessons (deliver_one outside queued)
deliver_settles_example = deliver_settles outside taken queued busy claims
