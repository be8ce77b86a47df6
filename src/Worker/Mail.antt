-- ===== src/Worker/Mail.antt =====
-- internal/worker, the texts of the mails: the digest of a date, and the mails that carry a code.
mod Tests
pub mod Clock
pub mod Queued
use Prim.Native.Char.{code}
use Prim.Native.String.{slice, len}
use Prim.Native.String.{◌++◌ as concat}
use classing_backend.Base.{
  ℕ, ◌+◌, ◌-◌, ◌/◌, ◌%◌, String, Bool, true, false, not, ◌||◌, List, [], ◌∷◌, leb, ltb,
  if◌then◌else◌, ◌==◌, nat_eq, string_eq,
}
use classing_backend.Base.Int.{ℤ, pos_part}
use classing_backend.Base.Decimal.{format_int, format_padded}
use classing_backend.Base.Lists.{length}
use classing_backend.Base.Text.{to_lower, split_on}
use classing_backend.Store.ContentRows.{
  BriefingJob, JobPayload, blank, reset_token, verification_code, change_code, change_notice,
}
use classing_backend.Store.Jobs.{ClaimedJob}
use classing_backend.Worker.Lessons.{BriefingLesson}

pub record BriefingDigest : Type 0 where
  pub target_date : String
  pub available : Bool
  pub source : String
  pub lessons : List BriefingLesson

-- The verbs of fmt.Sprintf have their values in place.
abbrev pub lines : List String → String
lines [] = ""
lines (s ∷ ss) = concat s (lines ss)

unfoldable pub format_minute : ℤ → String
format_minute minute =
    let m = if ltb 1439 (pos_part minute) then 1439 else pos_part minute in
    lines (format_padded 2 (m / 60) ∷ ":" ∷ format_padded 2 (m % 60) ∷ [])

abbrev pub detail_line : String → String → String
detail_line label value =
    if value == "" then "" else lines ("   " ∷ label ∷ "：" ∷ value ∷ "\r\n" ∷ [])

unfoldable pub render_lessons : ℕ → List BriefingLesson → String
unfolding format_minute
render_lessons index [] = ""
render_lessons index (l ∷ ls) = lines (
    format_int (index + 1)
    ∷ ". "
    ∷ format_minute l.start_minute
    ∷ "–"
    ∷ format_minute l.end_minute
    ∷ "  "
    ∷ l.title
    ∷ "\r\n"
    ∷ detail_line "地点" l.location
    ∷ detail_line "教师" l.teacher
    ∷ detail_line "备注" l.note
    ∷ render_lessons (index + 1) ls
    ∷ [])

unfoldable pub render_briefing_mail : String → BriefingDigest → String
unfolding render_lessons
render_briefing_mail username digest =
    let greeting = lines ("你好 " ∷ username ∷ "，\r\n\r\n" ∷ []) in
    let count = length digest.lessons in
    if not digest.available
    then lines (
        greeting ∷ "这是 " ∷ digest.target_date
        ∷ " 的 Classing 课程简报。\r\n\r\n尚未读取到已同步的课表数据，请先将课表同步到 Classing 官方云。\r\n" ∷ [])
    else if count == 0
    then lines
        (greeting ∷ digest.target_date ∷ " 当天没有课程安排。\r\n\r\n课表来源：" ∷ digest.source ∷ "\r\n" ∷ [])
    else lines (
        greeting
        ∷ digest.target_date
        ∷ " 共有 "
        ∷ format_int count
        ∷ " 节课程：\r\n\r\n"
        ∷ render_lessons 0 digest.lessons
        ∷ "\r\n课表来源："
        ∷ digest.source
        ∷ "\r\n"
        ∷ [])

-- A subject and a body, or the text of the error.
pub data MailContent : Type 0 where
  mail : String → String → MailContent
  no_mail : String → MailContent

-- The fields that the code decodes from a payload; a field that the payload has not is empty. The
-- empty text does not decode, which the code treats as an empty field.
abbrev pub token_of : JobPayload → String
token_of (reset_token token expires_at) = token
token_of _ = ""

abbrev pub code_of : JobPayload → String
code_of (verification_code code' expires_at) = code'
code_of (change_code code' expires_at to_email) = code'
code_of _ = ""

abbrev pub expires_at_of : JobPayload → ℕ
expires_at_of blank = 0
expires_at_of (reset_token token expires_at) = expires_at
expires_at_of (verification_code code' expires_at) = expires_at
expires_at_of (change_code code' expires_at to_email) = expires_at
expires_at_of (change_notice new_email to_email) = 0

abbrev pub to_email_of : JobPayload → String
to_email_of (change_code code' expires_at to_email) = to_email
to_email_of (change_notice new_email to_email) = to_email
to_email_of _ = ""

abbrev pub new_email_of : JobPayload → String
new_email_of (change_notice new_email to_email) = new_email
new_email_of _ = ""

-- The address that a mail is sent to.
abbrev pub recipient_of : ClaimedJob → String
recipient_of c = if to_email_of c.job.payload == "" then c.email else to_email_of c.job.payload

-- The texts of the channels. `clock` prints a time in the zone of the server.
module _ (clock : ℕ → String) where
  abbrev pub reset_text : String → JobPayload → String
  reset_text username payload = lines (
      "你好 "
      ∷ username
      ∷ "，\r\n\r\n你正在重置 Classing 密码。请在 Classing 的“找回密码”页面输入以下一次性验证码：\r\n\r\n"
      ∷ token_of payload
      ∷ "\r\n\r\n验证码将在 "
      ∷ clock (expires_at_of payload)
      ∷ " 过期。若非本人操作，请忽略本邮件。\r\n"
      ∷ [])

  abbrev pub verification_text : String → JobPayload → String
  verification_text username payload = lines (
      "Hello "
      ∷ username
      ∷ ",\r\n\r\nYour Classing verification code is:\r\n\r\n"
      ∷ code_of payload
      ∷ "\r\n\r\nThe code expires at "
      ∷ clock (expires_at_of payload)
      ∷ ". If you did not request this account, ignore this email.\r\n"
      ∷ [])

  abbrev pub change_text : String → JobPayload → String
  change_text username payload = lines (
      "Hello "
      ∷ username
      ∷ ",\r\n\r\nYou requested to change your Classing account email to "
      ∷ to_email_of payload
      ∷ ". Use the following verification code to confirm the change:\r\n\r\n"
      ∷ code_of payload
      ∷ "\r\n\r\nThe code expires at "
      ∷ clock (expires_at_of payload)
      ∷ ". If you did not request this change, please secure your account immediately.\r\n"
      ∷ [])

  abbrev pub notice_text : String → JobPayload → String
  notice_text username payload = lines (
      "Hello "
      ∷ username
      ∷ ",\r\n\r\nA request was made to change the email address on your Classing account to "
      ∷ new_email_of payload
      ∷ ". If you did not make this request, please change your password immediately.\r\n"
      ∷ [])

  pub mail_content : ClaimedJob → BriefingDigest → MailContent
  mail_content c digest =
      let payload = c.job.payload in
      let channel = c.job.channel in
      if channel == "EMAIL" || channel == "EMAIL_TEST"
      then mail "Classing 每日课程简报" (render_briefing_mail c.username digest)
      else if channel == "PASSWORD_RESET"
      then (if token_of payload == ""
          then no_mail "invalid password reset payload"
          else mail "Classing 密码重置" (reset_text c.username payload))
      else if channel == "EMAIL_VERIFICATION"
      then (if code_of payload == ""
          then no_mail "invalid email verification payload"
          else mail "Classing email verification" (verification_text c.username payload))
      else if channel == "EMAIL_CHANGE_VERIFY"
      then (if code_of payload == ""
          then no_mail "invalid email change verification payload"
          else mail "Classing email change verification" (change_text c.username payload))
      else if channel == "EMAIL_CHANGE_NOTIFY"
      then (if new_email_of payload == ""
          then no_mail "invalid email change notify payload"
          else mail "Classing email address change notice" (notice_text c.username payload))
      else no_mail (concat "unsupported mail job channel " channel)

-- strings.Contains
starts : String → String → Bool
starts String.[] s = true
starts (String.◌∷◌ c p) String.[] = false
starts (String.◌∷◌ c p) (String.◌∷◌ d s) =
    let rest = starts p s in if code c == code d then rest else false

unfoldable pub contains : String → String → Bool
unfolding starts
contains String.[] sub = sub == ""
contains (String.◌∷◌ c s) sub = starts sub (String.◌∷◌ c s) || contains s sub

unfoldable pub classify_mail_error : String → String
unfolding contains
classify_mail_error error =
    let message = to_lower error in
    if contains message "auth" || contains message "password" || contains message "secret"
    then "smtp authentication failed"
    else if contains message "timeout" || contains message "connection" || contains message "dial"
    then "smtp connection failed"
    else if contains message "recipient" || contains message "rcpt"
    then "smtp recipient rejected"
    else "smtp delivery failed"

-- The first and the last byte of the name; a character that the cut would split is left out.
abbrev pub mask_local : String → String
mask_local local =
    if local == ""
    then "***"
    else if leb (len local) 2
    then concat (slice local 0 1) "***"
    else lines (slice local 0 1 ∷ "***" ∷ slice local (len local - 1) (len local) ∷ [])

unfoldable pub mask_email : String → String
mask_email value = masked (split_on b'@' value)
  where
    masked : List String → String
    masked (local ∷ domain ∷ []) = lines (mask_local local ∷ "@" ∷ domain ∷ [])
    masked _ = value
