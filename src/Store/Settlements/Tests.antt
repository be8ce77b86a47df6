-- ===== src/Store/Settlements/Tests.antt =====
-- Runs of the charges and ends of requests to the assistant, internal/store/ai.go.
use classing_backend.Base.{◌∷◌, ◌≡◌, refl, false, some, [], string_eq}
use classing_backend.Base.Int.{pos}
use classing_backend.Base.Text.{trim_space}
use classing_backend.AiCost.{TokenUsage, resolve, points, numerator}
use classing_backend.Store.Core.{ok}
use classing_backend.Store.AiRows.{AiTables, AiUsage, AiMonth, AiConversation, AiRequest}
use classing_backend.Store.Fixtures.{assistant}
use classing_backend.Store.Quota.{ai_config, ai_usage_tx, find_month, open_month, add_credit}
use classing_backend.Store.Requests.{add_message}
use classing_backend.Store.Settlements.{
  settle_ai_quota, settle_with, charge, pay_credits, find_request, finish_ai_request, release,
  delete_ai_conversation,
}
use classing_backend.Store.Settlements.Charge.{Charged}
use classing_backend.Store.Settlements.Settle.{settle-Charged, settle_once}

abbrev conversation : AiConversation
conversation = record {
  id = "c";
  user_id = "b";
  title = "When is maths?";
  timetable = "{}";
  timetable_hash = "hash";
  source_project_id = "";
  created_at = 10;
  updated_at = 10;
}

abbrev usage : AiUsage
usage = record {
  period = "2026-01";
  limit = pos 500;
  used = 0;
  reserved = 52;
  credit_balance = 0;
  credit_available = 0;
  credit_frozen = false;
  is_member = false;
  mode = "INHERIT";
  reset_at = 99;
}

abbrev request : AiRequest
request = record {
  id = "r";
  user_id = "b";
  conversation_id = "c";
  client_request_id = "k";
  provider_kind = "openai";
  model = "deepseek-v4-flash";
  status = "PENDING";
  quota_counted = 0;
  reserved_points = 52;
  input_tokens = pos 0;
  cached_input_tokens = pos 0;
  output_tokens = pos 0;
  cost_points = 0;
  error_code = "";
  latency_ms = 0;
  created_at = 10;
  completed_at = 0;
}

abbrev asked : AiTables
asked = record assistant {
  months =
      record { user_id = "b"; period = "2026-01"; used = 0; reserved = 52; updated_at = 10 } ∷ [];
  conversations = conversation ∷ [];
  requests = request ∷ [];
}

finds : find_request "r" asked ≡ some request
finds = refl

abbrev tokens : TokenUsage
tokens = record { input_tokens = pos 1000; cached_input_tokens = pos 0; output_tokens = pos 100 }

abbrev settled : AiTables
settled = (settle_ai_quota 30 "x" "2026-01" 99 "r" tokens asked).1

abbrev settled_usage : AiUsage
settled_usage = record usage { used = 16; reserved = 0 }

settles : settle_ai_quota 30 "x" "2026-01" 99 "r" tokens asked ≡ (ok settled_usage, settled)
unfolding settle_ai_quota settle_with charge pay_credits add_credit add_message ai_config
    ai_usage_tx resolve points numerator trim_space
settles = refl

settle-Charged_example :
    (m : AiMonth) × (find_month "b" "2026-01" (open_month 30 "b" "2026-01" asked) ≡ some m)
    × Charged "2026-01" "r" tokens request m (open_month 30 "b" "2026-01" asked) settled
settle-Charged_example =
    settle-Charged 30 "x" "2026-01" 99 "r" tokens asked settled request settled_usage finds refl
      settles

settle_once_example :
    (settle_ai_quota 40 "y" "2026-02" 199 "r" tokens settled).1
    ≡ open_month 40 "b" "2026-02" settled
settle_once_example =
    settle_once 30 "x" "2026-01" 99 "r" tokens asked settled request settled_usage 40 "y" "2026-02"
      199 tokens finds refl settles

finishes : (finish_ai_request 50 "m2" "2026-01" 99 "r" "At nine." "COMPLETE" "" 7 settled).0 ≡ ok tt
unfolding finish_ai_request release settle_ai_quota settle_with charge pay_credits add_credit
    add_message ai_config ai_usage_tx resolve points numerator trim_space
finishes = refl

deletes : (delete_ai_conversation "b" "c" asked).1.requests ≡ []
unfolding delete_ai_conversation add_message ai_config ai_usage_tx resolve points numerator
    trim_space
deletes = refl
