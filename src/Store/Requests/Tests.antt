-- ===== src/Store/Requests/Tests.antt =====
-- Runs of the requests to the assistant, internal/store/ai.go.
use classing_backend.Base.{ℕ, ◌≡◌, ◌≤◌, ◌+◌, refl, false, some, string_eq}
use classing_backend.Base.Int.{pos}
use classing_backend.Base.Text.{trim_space}
use classing_backend.AiCost.{resolve, points, numerator, reservation_points}
use classing_backend.Store.Core.{ok}
use classing_backend.Store.AiRows.{AiTables, AiUsage, AiMonth, AiConfig, AiConversation}
use classing_backend.Store.Fixtures.{assistant}
use classing_backend.Store.Quota.{ai_config, ai_usage_tx, find_month}
use classing_backend.Store.Requests.{
  AiStart, started, StartIds, start_ai_request, start_with, start_new, start_checks,
  conversation_for, add_conversation, add_message, add_request, write_request, user_message,
}
use classing_backend.Store.Requests.Start.{start_fits}

abbrev question : AiStart
question = record {
  conversation_id = "";
  client_request_id = "k";
  message = "When is maths?";
  timetable = "{}";
  source_project_id = "";
  model = "deepseek-chat";
  estimated_input_tokens = pos 2000;
}

abbrev ids : StartIds
ids = record { conversation = "c"; message = "m"; request = "r" }

abbrev asked : AiTables
asked = (start_ai_request 10 ids "hash" "2026-01" 99 "b" question assistant).1

abbrev conversation : AiConversation
conversation = record {
  id = "c";
  user_id = "b";
  title = "When is maths?";
  timetable = "{}";
  timetable_hash = "hash";
  source_project_id = "";
  created_at = 10;
  updated_at = 10;
}

abbrev config : AiConfig
config = record {
  enabled = 1;
  provider_kind = "openai";
  model = "deepseek-v4-flash";
  max_output_tokens = pos 1000;
  default_monthly_limit = pos 10000;
}

abbrev usage : AiUsage
usage = record {
  period = "2026-01";
  limit = pos 500;
  used = 0;
  reserved = 52;
  credit_balance = 0;
  credit_available = 0;
  credit_frozen = false;
  is_member = false;
  mode = "INHERIT";
  reset_at = 99;
}

starts :
    start_ai_request 10 ids "hash" "2026-01" 99 "b" question assistant
    ≡ (ok (started conversation "r" config usage), asked)
unfolding start_ai_request start_with start_new start_checks conversation_for add_conversation
    write_request add_message add_request user_message ai_config ai_usage_tx trim_space resolve
    points numerator reservation_points
starts = refl

start_fits_example :
    (m : AiMonth) × (find_month "b" "2026-01" asked ≡ some m)
    × (m.used ≡ 0)
    × (m.reserved ≡ 52)
    × ((n : ℕ) → pos 500 ≡ pos n → m.used + m.reserved ≤ n + 0)
start_fits_example =
    start_fits 10 ids "hash" "2026-01" 99 "b" question assistant asked conversation "r" config usage
      starts
