-- ===== src/Worker/Mail/Tests.antt =====
-- Runs of the texts of the mails.
use classing_backend.Base.{ℕ, ◌≡◌, refl, String, true, ◌∷◌, [], arith, string_eq}
use classing_backend.Base.Int.{pos}
use classing_backend.Base.Decimal.{format_int, format_padded}
use classing_backend.Base.Text.{to_lower, char_of, split_on}
use classing_backend.Store.Core.{ok}
use classing_backend.Store.ContentRows.{BriefingJob, change_code, Contents}
use classing_backend.Store.Fixtures.{contents}
use classing_backend.Store.Jobs.{
  add_job, new_job, queue_mail_job, queue_email_change_verification_job,
}
use classing_backend.Worker.Lessons.{parse_clock_minute}
use classing_backend.Worker.Fixtures.{maths}
use classing_backend.Worker.Mail.{
  BriefingDigest, mail, mail_content, recipient_of, render_briefing_mail, render_lessons,
  format_minute, mask_email, classify_mail_error, contains,
}
use classing_backend.Worker.Mail.Clock.{parse_clock_minute-format_minute}
use classing_backend.Worker.Mail.Queued.{queue, ask_change, queued_mail_renders}

abbrev digest : BriefingDigest
digest = record {
  target_date = "2024-02-29";
  available = true;
  source = "S";
  lessons = record maths { title = "Maths"; start_minute = pos 605; end_minute = pos 695 } ∷ [];
}

renders :
    render_briefing_mail "bob" digest
    ≡ "你好 bob，\r\n\r\n2024-02-29 共有 1 节课程：\r\n\r\n1. 10:05–11:35  Maths\r\n   地点：R1\r\n   教师：T\r\n\r\n课表来源：S\r\n"
unfolding render_briefing_mail render_lessons format_minute format_padded format_int char_of
renders = refl

masks : mask_email "bobby@example.org" ≡ "b***y@example.org"
unfolding mask_email split_on
masks = refl

masks_short : mask_email "al@example.org" ≡ "a***@example.org"
unfolding mask_email split_on
masks_short = refl

classifies : classify_mail_error "smtp auth: 535 bad credentials" ≡ "smtp authentication failed"
unfolding classify_mail_error contains to_lower char_of
classifies = refl

dials : classify_mail_error "smtp connect tcp: Dial tcp" ≡ "smtp connection failed"
unfolding classify_mail_error contains to_lower char_of
dials = refl

parse_clock_minute-format_minute_example : parse_clock_minute (format_minute (pos 605)) ≡ 605
parse_clock_minute-format_minute_example = parse_clock_minute-format_minute 605 (omega arith)

abbrev mailed : BriefingJob
mailed =
    record (new_job 5 "j" "b" "j" "EMAIL_CHANGE_VERIFY" 5
      (change_code "123456" 9 "new@example.org")) { target_date = "j" }

abbrev asked_for : Contents
asked_for = record contents { jobs = mailed ∷ [] }

queues : queue 5 "j" "b" (ask_change "123456" 9 "new@example.org") contents ≡ (ok mailed, asked_for)
unfolding queue queue_mail_job queue_email_change_verification_job add_job
queues = refl

abbrev zone : ℕ → String
zone n = "soon"

queued_mail_renders_example :
    ((subject : String) × (body : String) × (mail_content zone
          (record { job = mailed; email = "b@example.org"; username = "bob" })
          digest
        ≡ mail subject body))
    × (recipient_of (record { job = mailed; email = "b@example.org"; username = "bob" })
        ≡ "new@example.org")
queued_mail_renders_example =
    queued_mail_renders zone digest 5 "j" "b" "b@example.org" "bob"
      (ask_change "123456" 9 "new@example.org") mailed contents asked_for queues refl
