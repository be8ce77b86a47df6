-- ===== src/Store/ContentRows.antt =====
-- internal/model/model.go, the row types of internal/store, and the columns of
-- internal/store/migrations.go: the rows of the tables beside the accounts. A Go int that the code
-- only compares with 0 or 1 is a natural number, where 0 stands for the negative numbers too.
use Prim.Native.Nat.{ℕ}
use Prim.Native.String.{String}
use mathlib.Core.List.{List}
use classing_backend.Base.{if◌then◌else◌, ◌==◌, nat_eq}
use classing_backend.Base.Int.{ℤ}
use classing_backend.Store.Rows.{Tables}

-- A flag is kept as 0 or 1.
abbrev pub as_flag : ℕ → ℕ
as_flag n = if n == 0 then 0 else 1

pub record CloudDocument : Type 0 where
  pub user_id : String
  pub payload : String
  pub version : ℕ
  pub updated_at : ℕ

-- A row of idempotency_keys.
pub record IdempotencyRecord : Type 0 where
  pub key_value : String
  pub user_id : String
  pub request_hash : String
  pub response_code : ℕ
  pub response_body : String
  pub expires_at : ℕ

-- What the operations put into the JSON column `payload` of runtime_events.
pub data EventPayload : Type 0 where
  document_written : ℕ → ℕ → EventPayload
  setting_written : String → ℕ → EventPayload

pub record RuntimeEvent : Type 0 where
  pub id : String
  pub user_id : String
  pub event_type : String
  pub payload : EventPayload
  pub created_at : ℕ

-- A row of system_settings.
pub record Setting : Type 0 where
  pub setting_key : String
  pub setting_value : String
  pub updated_by : String
  pub updated_at : ℕ

pub record TimetableProject : Type 0 where
  pub id : String
  pub owner_id : String
  pub name : String
  pub timezone : String
  pub semester_start : String
  pub week_count : ℤ
  pub document : String
  pub version : ℕ
  pub created_at : ℕ
  pub updated_at : ℕ

pub record BriefingSubscription : Type 0 where
  pub user_id : String
  pub enabled : ℕ
  pub channel : String
  pub time : String
  pub timezone : String
  pub last_scheduled_at : ℕ
  pub updated_at : ℕ

pub record Mailbox : Type 0 where
  pub id : String
  pub name : String
  pub smtp_host : String
  pub smtp_port : ℕ
  pub username : String
  pub password_secret_ref : String
  pub from_address : String
  pub daily_quota : ℕ
  pub used_today : ℕ
  pub usage_date : String
  pub enabled : ℕ
  pub created_at : ℕ
  pub updated_at : ℕ

-- What the operations put into the JSON column `payload` of briefing_jobs; `blank` is the empty text.
pub data JobPayload : Type 0 where
  blank : JobPayload
  reset_token : String → ℕ → JobPayload
  verification_code : String → ℕ → JobPayload
  change_code : String → ℕ → String → JobPayload
  change_notice : String → String → JobPayload

pub record BriefingJob : Type 0 where
  pub id : String
  pub user_id : String
  pub target_date : String
  pub channel : String
  pub status : String
  pub provider_mailbox_id : String
  pub retry_count : ℕ
  pub last_error : String
  pub scheduled_at : ℕ
  pub created_at : ℕ
  pub updated_at : ℕ
  pub payload : JobPayload

pub record BriefingJobLog : Type 0 where
  pub id : String
  pub job_id : String
  pub level : String
  pub event : String
  pub message : String
  pub details : String
  pub created_at : ℕ

pub record Announcement : Type 0 where
  pub id : String
  pub title : String
  pub content : String
  pub platform : String
  pub priority : ℤ
  pub active : ℕ
  pub publish_at : ℕ
  pub expires_at : ℕ
  pub created_by : String
  pub created_at : ℕ
  pub updated_at : ℕ

pub record AppRelease : Type 0 where
  pub id : String
  pub platform : String
  pub channel : String
  pub version_code : ℕ
  pub version_name : String
  pub min_supported_version_code : ℤ
  pub title : String
  pub changelog : String
  pub mandatory : ℕ
  pub status : String
  pub artifact_file_name : String
  pub artifact_storage_name : String
  pub artifact_size : ℕ
  pub artifact_sha256 : String
  pub artifact_mime_type : String
  pub created_by : String
  pub published_at : ℕ
  pub created_at : ℕ
  pub updated_at : ℕ

pub record Contents : Type 0 where
  pub accounts : Tables
  pub documents : List CloudDocument
  pub idempotency_keys : List IdempotencyRecord
  pub events : List RuntimeEvent
  pub settings : List Setting
  pub timetables : List TimetableProject
  pub subscriptions : List BriefingSubscription
  pub mailboxes : List Mailbox
  pub jobs : List BriefingJob
  pub job_logs : List BriefingJobLog
  pub announcements : List Announcement
  pub releases : List AppRelease
