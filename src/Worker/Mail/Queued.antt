-- ===== src/Worker/Mail/Queued.antt =====
-- What is put into the queue of internal/store/briefings.go can be sent by internal/worker.
use classing_backend.Base.{ℕ, ◌≡◌, refl, String, false, arith, if◌then◌else◌, ◌==◌, string_eq}
use classing_backend.Store.Core.{ok, Action}
use classing_backend.Store.ContentRows.{
  BriefingJob, reset_token, verification_code, change_code, change_notice, Contents,
}
use classing_backend.Store.Jobs.{
  queue_mail_job, queue_password_reset_job, queue_email_verification_job,
  queue_email_change_verification_job, queue_email_change_notify_job,
}
use classing_backend.Worker.Mail.{BriefingDigest, mail, mail_content, recipient_of}

-- The calls that queue a mail of an account.
pub data Request : Type 0 where
  ask_reset : String → ℕ → Request
  ask_verification : String → ℕ → Request
  ask_change : String → ℕ → String → Request
  ask_notice : String → String → Request

unfoldable pub queue : ℕ → String → String → Request → Action Contents BriefingJob
queue now id user (ask_reset token expires_at) =
    queue_password_reset_job now id user token expires_at
queue now id user (ask_verification code expires_at) =
    queue_email_verification_job now id user code expires_at
queue now id user (ask_change code expires_at new_email) =
    queue_email_change_verification_job now id user code expires_at new_email
queue now id user (ask_notice new_email old_email) =
    queue_email_change_notify_job now id user new_email old_email

-- What the mail tells: the token, the code or the new address.
abbrev pub told : Request → String
told (ask_reset token expires_at) = token
told (ask_verification code expires_at) = code
told (ask_change code expires_at new_email) = code
told (ask_notice new_email old_email) = new_email

-- Where it goes: a change of address is confirmed at the new one and announced at the old one, if they are
-- not empty; else, and for the other mails, it is the address of the account.
abbrev pub addressed : String → Request → String
addressed email (ask_reset token expires_at) = email
addressed email (ask_verification code expires_at) = email
addressed email (ask_change code expires_at new_email) =
    if new_email == "" then email else new_email
addressed email (ask_notice new_email old_email) = if old_email == "" then email else old_email

module _ (clock : ℕ → String) (digest : BriefingDigest) where
  -- Every mail with a token, a code or a new address that the operations of the store queue has a text,
  -- whoever the account belongs to, and goes to the address that the request asks for: the new address to
  -- confirm a change, the old one to announce it, and the account's for the others or an empty address.
  pub queued_mail_renders :
      (now : ℕ) (id user email username : String) (r : Request) (item : BriefingJob)
      (d d' : Contents)
      → queue now id user r d ≡ (ok item, d')
      → (told r == "") ≡ false
      → ((subject : String) × (body : String) × (mail_content clock
              (record { job = item; email = email; username = username })
              digest
            ≡ mail subject body))
        × (recipient_of (record { job = item; email = email; username = username })
            ≡ addressed email r)
  unfolding queue queue_mail_job queue_password_reset_job queue_email_verification_job
      queue_email_change_verification_job queue_email_change_notify_job mail_content
  queued_mail_renders now id user email username (ask_reset token expires_at) item d d' run given =
      let payload : item.payload ≡ reset_token token expires_at = ground arith in
      let channel : item.channel ≡ "PASSWORD_RESET" = ground arith in
      rw (payload, channel, given) ((_, _, refl), refl)
  queued_mail_renders now id user email username (ask_verification code expires_at) item d d' run
        given =
      let payload : item.payload ≡ verification_code code expires_at = ground arith in
      let channel : item.channel ≡ "EMAIL_VERIFICATION" = ground arith in
      rw (payload, channel, given) ((_, _, refl), refl)
  queued_mail_renders now id user email username (ask_change code expires_at new_email) item d d'
        run given =
      let payload : item.payload ≡ change_code code expires_at new_email = ground arith in
      let channel : item.channel ≡ "EMAIL_CHANGE_VERIFY" = ground arith in
      rw (payload, channel, given) ((_, _, refl), refl)
  queued_mail_renders now id user email username (ask_notice new_email old_email) item d d' run
        given =
      let payload : item.payload ≡ change_notice new_email old_email = ground arith in
      let channel : item.channel ≡ "EMAIL_CHANGE_NOTIFY" = ground arith in
      rw (payload, channel, given) ((_, _, refl), refl)
