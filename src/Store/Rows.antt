-- ===== src/Store/Rows.antt =====
-- internal/model/model.go and the columns of internal/store/migrations.go: the rows of the tables of
-- accounts, sessions, challenges and memberships. Times are milliseconds since 1970.
use Prim.Native.Nat.{ℕ}
use Prim.Native.String.{String}
use mathlib.Core.Option.{Option}
use mathlib.Core.List.{List}

abbrev pub role_admin : String
role_admin = "ADMIN"

abbrev pub role_user : String
role_user = "USER"

abbrev pub status_active : String
status_active = "ACTIVE"

abbrev pub status_disabled : String
status_disabled = "DISABLED"

abbrev pub status_pending : String
status_pending = "PENDING_VERIFICATION"

abbrev pub status_deleted : String
status_deleted = "DELETED"

pub record User : Type 0 where
  pub id : String
  pub username : String
  pub email : String
  pub password_hash : String
  pub role : String
  pub status : String
  pub email_verified : ℕ
  pub auth_epoch : ℕ
  pub created_at : ℕ
  pub updated_at : ℕ

pub record Membership : Type 0 where
  pub user_id : String
  pub tier : String
  pub expires_at : ℕ
  pub updated_at : ℕ
  pub source : String

-- A row of auth_sessions.
pub record Session : Type 0 where
  pub id : String
  pub user_id : String
  pub revoked_at : ℕ
  pub expires_at : ℕ
  pub created_at : ℕ
  pub last_seen_at : ℕ
  pub ip_address : String
  pub user_agent : String

-- A row of refresh_tokens, of which the type SessionToken reads a part.
pub record RefreshToken : Type 0 where
  pub id : String
  pub user_id : String
  pub token_hash : String
  pub expires_at : ℕ
  pub revoked_at : ℕ
  pub replaced_by : String
  pub created_at : ℕ
  pub ip_address : String
  pub user_agent : String
  pub session_id : String

pub record ResetToken : Type 0 where
  pub id : String
  pub user_id : String
  pub token_hash : String
  pub expires_at : ℕ
  pub used_at : ℕ
  pub request_ip : String
  pub request_ua : String
  pub created_at : ℕ
  pub failed_attempts : ℕ

-- A row of email_verification_challenges.
pub record EmailChallenge : Type 0 where
  pub id : String
  pub user_id : String
  pub code_hash : String
  pub expires_at : ℕ
  pub used_at : ℕ
  pub request_ip : String
  pub request_ua : String
  pub created_at : ℕ
  pub failed_attempts : ℕ

pub record EmailChange : Type 0 where
  pub id : String
  pub user_id : String
  pub new_email : String
  pub code_hash : String
  pub expires_at : ℕ
  pub used_at : ℕ
  pub request_ip : String
  pub request_ua : String
  pub created_at : ℕ
  pub failed_attempts : ℕ

-- A row of device_authorizations; `user_id` is NULL until the approval.
pub record DeviceAuthorization : Type 0 where
  pub id : String
  pub poll_secret_hash : String
  pub user_id : Option String
  pub device_name : String
  pub expires_at : ℕ
  pub approved_at : ℕ
  pub consumed_at : ℕ
  pub request_ip : String
  pub request_ua : String
  pub created_at : ℕ

-- What the operations put into the JSON column `metadata`.
pub data Metadata : Type 0 where
  empty : Metadata
  deleted_at : ℕ → Metadata
  redeemed : String → ℕ → Metadata
  membership_set : String → String → ℕ → ℕ → Metadata
  cloud_written : ℕ → ℕ → Metadata
  settings_written : ℕ → Metadata

pub record AuditContext : Type 0 where
  pub actor_id : String
  pub action : String
  pub target_type : String
  pub target_id : String
  pub request_id : String
  pub ip_address : String
  pub user_agent : String
  pub metadata : Metadata

pub record AuditLog : Type 0 where
  pub id : String
  pub entry : AuditContext
  pub created_at : ℕ

-- A row of redeem_codes.
pub record RedeemCode : Type 0 where
  pub code : String
  pub code_type : String
  pub grant_days : ℕ
  pub max_redemptions : ℕ
  pub current_redemptions : ℕ
  pub expires_at : ℕ
  pub revoked_at : ℕ
  pub created_by : String
  pub created_at : ℕ

-- A row of redeem_redemptions.
pub record Redemption : Type 0 where
  pub id : String
  pub code : String
  pub user_id : String
  pub grant_days : ℕ
  pub redeemed_at : ℕ

pub record MembershipEvent : Type 0 where
  pub id : String
  pub user_id : String
  pub action : String
  pub tier : String
  pub old_expires_at : ℕ
  pub new_expires_at : ℕ
  pub source : String
  pub actor_id : String
  pub created_at : ℕ

-- The tables that the operations on accounts and sessions read and write.
pub record Tables : Type 0 where
  pub users : List User
  pub memberships : List Membership
  pub sessions : List Session
  pub refresh_tokens : List RefreshToken
  pub reset_tokens : List ResetToken
  pub email_challenges : List EmailChallenge
  pub email_changes : List EmailChange
  pub device_authorizations : List DeviceAuthorization
  pub audit_logs : List AuditLog
  pub redeem_codes : List RedeemCode
  pub redemptions : List Redemption
  pub membership_events : List MembershipEvent
