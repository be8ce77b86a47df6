-- ===== src/Worker/Delivery.antt =====
-- internal/worker/worker.go, the delivery of one mail: a job is claimed and is sent from one mailbox after
-- another until one accepts it, the pool is exhausted, or the failure is not one of the mailbox.
mod Tests
pub mod Pool
pub mod Settled
use classing_backend.Base.{
  ℕ, zero, suc, ◌+◌, String, Bool, true, false, not, ◌&&◌, ◌||◌, Option, none, some, List, [], ◌∷◌,
  if◌then◌else◌, ◌==◌, string_eq,
}
use Prim.Native.String.{◌++◌ as concat}
use classing_backend.Base.Lists.{length}
use classing_backend.Base.Decimal.{format_int}
use classing_backend.Store.Core.{Error, not_found, conflict, Result, ok, err}
use classing_backend.Store.ContentRows.{Mailbox, Contents}
use classing_backend.Store.Jobs.{
  ClaimedJob, claim_briefing_job, complete_briefing_job, fail_briefing_job,
}
use classing_backend.Store.JobLogs.{add_briefing_job_log}
use classing_backend.Store.Mailboxes.{acquire_mailbox_excluding, release_mailbox_reservation}
use classing_backend.Worker.Mail.{BriefingDigest, classify_mail_error}

-- A value of the details of a log entry.
pub data Detail : Type 0 where
  text_detail : String → Detail
  int_detail : ℕ → Detail
  flag_detail : Bool → Detail

-- An entry of the log of a job: level, event, message and details.
pub record LogStep : Type 0 where
  pub level : String
  pub event : String
  pub message : String
  pub details : List (String × Detail)

-- What sending a mail has logged, and the text of its error if it failed.
pub record Attempt : Type 0 where
  pub steps : List LogStep
  pub failure : Option String

-- How a delivery ends.
pub data Outcome : Type 0 where
  idle : Outcome
  delivered : Mailbox → Outcome
  gave_up : String → Outcome

abbrev pub log_step : String → String → String → List (String × Detail) → LogStep
log_step level event message details = record {
  level = level;
  event = event;
  message = message;
  details = details;
}

-- The mailbox is at fault, and another one may do.
abbrev pub is_mailbox_failure : String → Bool
is_mailbox_failure class =
    class == "smtp connection failed" || class == "smtp authentication failed"

abbrev pub selected_step : Mailbox → LogStep
selected_step m = log_step "INFO" "mailbox.selected" "SMTP mailbox selected" (
    ("mailboxId", text_detail m.id)
    ∷ ("name", text_detail m.name)
    ∷ ("host", text_detail m.smtp_host)
    ∷ ("port", int_detail m.smtp_port)
    ∷ ("from", text_detail m.from_address)
    ∷ ("username", text_detail m.username)
    ∷ (
      "quota",
      text_detail (concat (format_int m.used_today) (concat "/" (format_int m.daily_quota))),
    )
    ∷ [])

abbrev pub failed_step : Mailbox → String → LogStep
failed_step m error = log_step "ERROR" "mailbox.delivery_failed" "SMTP delivery attempt failed" (
    ("mailboxId", text_detail m.id)
    ∷ ("errorClass", text_detail (classify_mail_error error))
    ∷ ("error", text_detail error)
    ∷ [])

-- What a delivery finds outside: the encoder of JSON, the ids that are drawn for entries, the sending of a
-- mail over SMTP, the texts of the errors, the digest that is made for the claimed job, the clock and the
-- date on it.
pub record Outside : Type 0 where
  pub encode : List (String × Detail) → Option String
  pub log_id : Contents → String
  pub send : Mailbox → ClaimedJob → BriefingDigest → Attempt
  pub error_text : Error → String
  pub build : ClaimedJob → Contents → BriefingDigest
  pub now : ℕ
  pub today : String

module _ (w : Outside) where
  -- A log entry that cannot be written is left out.
  unfoldable pub job_log : String → LogStep → Contents → Contents
  job_log job s d =
      (add_briefing_job_log w.now (w.log_id d) job s.level s.event s.message (w.encode s.details)
        d).1

  unfoldable pub job_logs_of : String → List LogStep → Contents → Contents
  job_logs_of job [] d = d
  job_logs_of job (s ∷ ss) d = job_logs_of job ss (job_log job s d)

  -- The end of a job that is given up.
  unfoldable pub give_up : ClaimedJob → String → Contents → Option Outcome × Contents
  give_up c reason d =
      (some (gave_up reason), (fail_briefing_job w.now c.job.id reason c.job.retry_count d).1)

  unfoldable pub pool_exhausted : ClaimedJob → Error → Contents → Option Outcome × Contents
  pool_exhausted c e d = give_up c "mailbox pool exhausted" (
      job_log c.job.id
        (log_step "ERROR" "mailbox.pool_exhausted" "No enabled mailbox with quota is available"
          (("error", text_detail (w.error_text e)) ∷ ("usageDate", text_detail w.today) ∷ []))
        d)

  -- The tables after a mailbox has been tried.
  unfoldable pub tried_mailbox : ClaimedJob → BriefingDigest → Mailbox → Contents → Contents
  tried_mailbox c digest m d =
      job_logs_of c.job.id (w.send m c digest).steps (job_log c.job.id (selected_step m) d)

  -- The tables after it has failed: its reservation is given back.
  unfoldable pub dropped_mailbox : ClaimedJob → Mailbox → String → Contents → Contents
  dropped_mailbox c m error d =
      (release_mailbox_reservation w.now m.id w.today (job_log c.job.id (failed_step m error) d)).1

  -- The loop over the mailboxes, where none stands for fuel that has run out.
  pub delivery_loop :
      ℕ → (String → Bool) → ClaimedJob → BriefingDigest → Contents → Option Outcome × Contents
  delivery_loop zero excluded c digest d = (none, d)
  delivery_loop (suc fuel) excluded c digest d =
      let (acquired, d₁) = acquire_mailbox_excluding w.now w.today excluded d in
      elim acquired [
        | err e ↦ pool_exhausted c e d₁
        | ok m ↦
            let d₂ = tried_mailbox c digest m d₁ in
            elim (w.send m c digest).failure [
              | none ↦ (some (delivered m), d₂)
              | some error ↦
                  let class = classify_mail_error error in
                  let d₃ = dropped_mailbox c m error d₂ in
                  let rest = delivery_loop fuel (λ id. id == m.id || excluded id) c digest d₃ in
                  if is_mailbox_failure class then rest else give_up c class d₃
            ]
      ]

  abbrev pub claimed_step : ClaimedJob → LogStep
  claimed_step c = log_step "INFO" "job.claimed" "Delivery worker claimed the task" (
      ("channel", text_detail c.job.channel)
      ∷ ("targetDate", text_detail c.job.target_date)
      ∷ ("retryCount", int_detail c.job.retry_count)
      ∷ ("scheduledAt", int_detail c.job.scheduled_at)
      ∷ [])

  abbrev pub loaded_step : BriefingDigest → LogStep
  loaded_step digest =
      log_step "INFO" "briefing.schedule_loaded" "Daily timetable content prepared" (
        ("available", flag_detail digest.available)
        ∷ ("lessonCount", int_detail (length digest.lessons))
        ∷ ("source", text_detail digest.source)
        ∷ ("targetDate", text_detail digest.target_date)
        ∷ [])

  -- What follows the loop: a mail that was accepted makes the job a sent one.
  unfoldable pub close_job : ClaimedJob → Option Outcome × Contents → Option Outcome × Contents
  close_job c (some (delivered m), d) =
      let (r, d₁) = complete_briefing_job w.now c.job.id m.id d in
      let step : LogStep = elim r [
        | ok _ ↦
            log_step "INFO" "job.sent" "Task delivered and marked as sent"
              (("mailboxId", text_detail m.id) ∷ [])
        | err e ↦
            log_step "ERROR" "job.complete_failed"
              "Task was delivered but could not be marked as sent"
              (("error", text_detail (w.error_text e)) ∷ ("mailboxId", text_detail m.id) ∷ [])
      ] in
      (some (delivered m), job_log c.job.id step d₁)
  close_job c (outcome, d) = (outcome, d)

  -- One job after it has been claimed. Each round but the last excludes another mailbox.
  pub deliver_claimed : ClaimedJob → Contents → Option Outcome × Contents
  deliver_claimed c d =
      let d₁ = job_log c.job.id (claimed_step c) d in
      let digest = w.build c d₁ in
      let d₂ = job_log c.job.id (loaded_step digest) d₁ in
      close_job c (delivery_loop (suc (length d₂.mailboxes)) (λ id. false) c digest d₂)

  pub deliver_one : Contents → Option Outcome × Contents
  deliver_one d =
      let (claimed, d₁) = claim_briefing_job w.now d in
      elim claimed [ err e ↦ (some idle, d₁) | ok c ↦ deliver_claimed c d₁ ]
