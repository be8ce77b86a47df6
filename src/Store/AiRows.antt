-- ===== src/Store/AiRows.antt =====
-- The rows of the assistant: internal/model/model.go, and the tables ai_* of internal/store/migrations.go.
use classing_backend.Base.{ℕ, String, Bool, Option, List}
use classing_backend.Base.Int.{ℤ}
use classing_backend.Store.Rows.{Tables}

-- Of a row of ai_config, what these operations read.
pub record AiConfig : Type 0 where
  pub enabled : ℕ
  pub provider_kind : String
  pub model : String
  pub max_output_tokens : ℤ
  pub default_monthly_limit : ℤ

pub record AiConversation : Type 0 where
  pub id : String
  pub user_id : String
  pub title : String
  pub timetable : String
  pub timetable_hash : String
  pub source_project_id : String
  pub created_at : ℕ
  pub updated_at : ℕ

pub record AiMessage : Type 0 where
  pub id : String
  pub conversation_id : String
  pub role : String
  pub content : String
  pub status : String
  pub client_request_id : String
  pub created_at : ℕ
  pub completed_at : ℕ

pub record AiUsage : Type 0 where
  pub period : String
  pub limit : ℤ
  pub used : ℕ
  pub reserved : ℕ
  pub credit_balance : ℕ
  pub credit_available : ℕ
  pub credit_frozen : Bool
  pub is_member : Bool
  pub mode : String
  pub reset_at : ℕ

-- A row of ai_user_quotas.
pub record AiQuota : Type 0 where
  pub user_id : String
  pub mode : String
  pub monthly_limit : ℕ
  pub updated_by : String
  pub updated_at : ℕ

-- A row of ai_usage_monthly.
pub record AiMonth : Type 0 where
  pub user_id : String
  pub period : String
  pub used : ℕ
  pub reserved : ℕ
  pub updated_at : ℕ

-- A row of ai_credit_wallets.
pub record AiWallet : Type 0 where
  pub user_id : String
  pub balance : ℕ
  pub updated_at : ℕ

-- A row of ai_credit_transactions.
pub record AiCredit : Type 0 where
  pub id : String
  pub user_id : String
  pub points : ℤ
  pub balance_after : ℕ
  pub source : String
  pub reference_id : String
  pub note : String
  pub actor_id : String
  pub created_at : ℕ

-- A row of ai_requests.
pub record AiRequest : Type 0 where
  pub id : String
  pub user_id : String
  pub conversation_id : String
  pub client_request_id : String
  pub provider_kind : String
  pub model : String
  pub status : String
  pub quota_counted : ℕ
  pub reserved_points : ℕ
  pub input_tokens : ℤ
  pub cached_input_tokens : ℤ
  pub output_tokens : ℤ
  pub cost_points : ℕ
  pub error_code : String
  pub latency_ms : ℕ
  pub created_at : ℕ
  pub completed_at : ℕ

pub record AiTables : Type 0 where
  pub accounts : Tables
  pub config : Option AiConfig
  pub quotas : List AiQuota
  pub months : List AiMonth
  pub wallets : List AiWallet
  pub credits : List AiCredit
  pub conversations : List AiConversation
  pub messages : List AiMessage
  pub requests : List AiRequest
