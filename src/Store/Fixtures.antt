-- ===== src/Store/Fixtures.antt =====
-- Test data: the tables of a small installation of internal/store.
use classing_backend.Base.{none, [], ◌∷◌, some}
use classing_backend.Base.Int.{pos}
use classing_backend.Store.AiRows.{AiTables}
use classing_backend.Store.ContentRows.{Contents}
use classing_backend.Store.Rows.{
  User, EmailChallenge, DeviceAuthorization, RedeemCode, AuditContext, empty, Tables, role_admin,
  role_user, status_active,
}

abbrev pub no_tables : Tables
no_tables = record {
  users = [];
  memberships = [];
  sessions = [];
  refresh_tokens = [];
  reset_tokens = [];
  email_challenges = [];
  email_changes = [];
  device_authorizations = [];
  audit_logs = [];
  redeem_codes = [];
  redemptions = [];
  membership_events = [];
}

abbrev pub alice : User
alice = record {
  id = "a";
  username = "alice";
  email = "alice@example.org";
  password_hash = "h";
  role = role_admin;
  status = status_active;
  email_verified = 1;
  auth_epoch = 0;
  created_at = 1;
  updated_at = 1;
}

abbrev pub bob : User
bob = record alice { id = "b"; username = "bob"; email = "bob@example.org"; role = role_user }

abbrev pub audit : AuditContext
audit = record {
  actor_id = "a";
  action = "account.delete";
  target_type = "user";
  target_id = "";
  request_id = "r";
  ip_address = "ip";
  user_agent = "ua";
  metadata = empty;
}

-- An administrator and a user.
abbrev pub accounts : Tables
accounts = record no_tables { users = alice ∷ bob ∷ [] }

-- The user has one session.
abbrev pub signed_in : Tables
signed_in = record accounts {
  sessions =
      record {
        id = "s";
        user_id = "b";
        revoked_at = 0;
        expires_at = 1000;
        created_at = 1;
        last_seen_at = 1;
        ip_address = "ip";
        user_agent = "ua";
      }
      ∷ [];
  refresh_tokens =
      record {
        id = "t";
        user_id = "b";
        token_hash = "old";
        expires_at = 1000;
        revoked_at = 0;
        replaced_by = "";
        created_at = 1;
        ip_address = "ip";
        user_agent = "ua";
        session_id = "s";
      }
      ∷ [];
}

abbrev pub device : DeviceAuthorization
device = record {
  id = "d";
  poll_secret_hash = "secret";
  user_id = none;
  device_name = "tv";
  expires_at = 1000;
  approved_at = 0;
  consumed_at = 0;
  request_ip = "ip";
  request_ua = "ua";
  created_at = 1;
}

abbrev pub challenge : EmailChallenge
challenge = record {
  id = "c";
  user_id = "b";
  code_hash = "code";
  expires_at = 1000;
  used_at = 0;
  request_ip = "ip";
  request_ua = "ua";
  created_at = 1;
  failed_attempts = 0;
}

abbrev pub campaign : RedeemCode
campaign = record {
  code = "CLS-AAAA-BBBB-CCCC";
  code_type = "CAMPAIGN";
  grant_days = 30;
  max_redemptions = 2;
  current_redemptions = 0;
  expires_at = 0;
  revoked_at = 0;
  created_by = "a";
  created_at = 1;
}

-- The accounts with the assistant enabled.
abbrev pub assistant : AiTables
assistant = record {
  accounts = accounts;
  config = some (record {
    enabled = 1;
    provider_kind = "openai";
    model = "deepseek-v4-flash";
    max_output_tokens = pos 1000;
    default_monthly_limit = pos 10000;
  });
  quotas = [];
  months = [];
  wallets = [];
  credits = [];
  conversations = [];
  messages = [];
  requests = [];
}

-- The accounts, and nothing else.
abbrev pub contents : Contents
contents = record {
  accounts = accounts;
  documents = [];
  idempotency_keys = [];
  events = [];
  settings = [];
  timetables = [];
  subscriptions = [];
  mailboxes = [];
  jobs = [];
  job_logs = [];
  announcements = [];
  releases = [];
}
