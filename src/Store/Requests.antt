-- ===== src/Store/Requests.antt =====
-- internal/store/ai.go: the start of a request to the assistant, with its reservation. The hash of a timetable is an argument.
pub mod Months
pub mod Reserve
pub mod Start
mod Tests
use Prim.Native.String as String
use Prim.Native.String.{◌++◌ as concat}
use classing_backend.Base.{
  ℕ, zero, suc, ◌+◌, ◌-◌, min, max, String, Bool, true, false, not, ◌&&◌, ◌||◌, Option, none, some,
  List, [], ◌∷◌, ◌++◌, leb, ltb, if◌then◌else◌, ◌==◌, nat_eq, string_eq,
}
use classing_backend.Base.Int.{ℤ, pos, negsuc, ltb_ℤ}
use classing_backend.Base.Table.{select_one, count_where, update_where, delete_where}
use classing_backend.Base.Text.{trim_space, rune_count}
use classing_backend.AiCost.{Model, TokenUsage, resolve, points, reservation_points}
use classing_backend.Store.Core.{
  Error, not_found, forbidden, invalid, unavailable, database, duplicate_key, no_rows,
  normalize_db_error, Result, ok, err, Action, pure, fail, gets, or_fail, ◌>>=◌, ◌>>◌, fail_if,
  modify, transaction, commit, insert_row,
}
use classing_backend.Store.AiRows.{
  AiConfig, AiConversation, AiMessage, AiUsage, AiMonth, AiWallet, AiCredit, AiRequest, AiTables,
}
use classing_backend.Store.Quota.{quota_blocked, ai_config, ai_usage_tx, add_credit}

pub record AiStart : Type 0 where
  pub conversation_id : String
  pub client_request_id : String
  pub message : String
  pub timetable : String
  pub source_project_id : String
  pub model : String
  pub estimated_input_tokens : ℤ

-- A new request, or the answer to one that was made before: its conversation and its message, where
-- they exist.
pub data AiStarted : Type 0 where
  started : AiConversation → String → AiConfig → AiUsage → AiStarted
  replayed : Option AiConversation → Option AiMessage → AiConfig → AiUsage → AiStarted

abbrev take_runes : ℕ → String → String
take_runes zero s = ""
take_runes (suc n) String.[] = ""
take_runes (suc n) (String.◌∷◌ c s) = String.◌∷◌ c (take_runes n s)

abbrev truncate_title : String → String
truncate_title value =
    let value = trim_space value in
    if ltb 40 (rune_count value) then concat (take_runes 40 value) "…" else value

-- The guard on the quota: what is used, reserved and asked for is more than the limit and the credits.
abbrev pub over_limit : AiUsage → ℕ → Bool
over_limit usage reservation = elim usage.limit [
  | pos limit ↦ ltb (limit + usage.credit_available) (usage.used + usage.reserved + reservation)
  | negsuc _ ↦ false
]

abbrev pub find_replay : String → String → AiTables → Option AiRequest
find_replay user client_request_id d =
    select_one (λ r. r.user_id == user && r.client_request_id == client_request_id) d.requests

abbrev answer_of : AiRequest → AiTables → Option AiMessage
answer_of request d =
    if request.status == "COMPLETE"
    then select_one
        (λ m.
          m.conversation_id == request.conversation_id
          && m.role == "ASSISTANT"
          && m.client_request_id == request.id)
        d.messages
    else none

-- INSERT INTO ai_conversations
add_conversation : AiConversation → Action AiTables (Unit {0})
add_conversation row d = elim (insert_row (λ c. c.id == row.id) row d.conversations) [
  | none ↦ fail (database duplicate_key) d
  | some rows ↦ (ok tt, record d { conversations = rows })
]

-- INSERT INTO ai_messages: `id` is unique, and so is the pair of the conversation and the client's id.
unfoldable pub add_message : Error → AiMessage → Action AiTables (Unit {0})
add_message on_duplicate row d =
    elim (insert_row
      (λ m.
        m.id == row.id
        || m.conversation_id == row.conversation_id && m.client_request_id == row.client_request_id)
      row d.messages) [
        | none ↦ fail on_duplicate d
        | some rows ↦ (ok tt, record d { messages = rows })
      ]

-- INSERT INTO ai_requests: `id` is unique, and so is the pair of the user and the client's id.
add_request : AiRequest → Action AiTables (Unit {0})
add_request row d =
    elim (insert_row
      (λ r.
        r.id == row.id || r.user_id == row.user_id && r.client_request_id == row.client_request_id)
      row d.requests) [
        | none ↦ fail (normalize_db_error duplicate_key) d
        | some rows ↦ (ok tt, record d { requests = rows })
      ]

-- UPDATE ai_usage_monthly SET reserved = reserved + points
abbrev pub reserve : ℕ → String → String → ℕ → AiTables → AiTables
reserve now user period points d = record d {
  months =
      update_where (λ m. m.user_id == user && m.period == period)
        (λ m. record m { reserved = m.reserved + points; updated_at = now }) d.months;
}

-- The conversation that the request belongs to: a new one for a timetable.
pub conversation_for : ℕ → String → String → String → AiStart → Action AiTables String
unfolding add_conversation
conversation_for now new_id hash user input =
    if input.conversation_id == ""
    then if trim_space input.timetable == "" then fail invalid else (do
      add_conversation (record {
        id = new_id;
        user_id = user;
        title = truncate_title input.message;
        timetable = input.timetable;
        timetable_hash = hash;
        source_project_id = input.source_project_id;
        created_at = now;
        updated_at = now;
      })
      pure new_id)
    else (if not (trim_space input.timetable == "")
        then fail invalid
        else pure input.conversation_id)

-- The new ids of a request.
pub record StartIds : Type 0 where
  pub conversation : String
  pub message : String
  pub request : String

user_message : ℕ → String → String → AiStart → AiMessage
user_message now id conversation input = record {
  id = id;
  conversation_id = conversation;
  role = "USER";
  content = input.message;
  status = "PENDING";
  client_request_id = input.client_request_id;
  created_at = now;
  completed_at = 0;
}

abbrev pub pending_request : ℕ → String → String → String → String → AiConfig → ℕ → AiRequest
pending_request now id user conversation client_request_id config reservation = record {
  id = id;
  user_id = user;
  conversation_id = conversation;
  client_request_id = client_request_id;
  provider_kind = config.provider_kind;
  model = config.model;
  status = "PENDING";
  quota_counted = 0;
  reserved_points = reservation;
  input_tokens = pos 0;
  cached_input_tokens = pos 0;
  output_tokens = pos 0;
  cost_points = 0;
  error_code = "";
  latency_ms = 0;
  created_at = now;
  completed_at = 0;
}

-- The guards on the configuration, the model and the quota: the model's name and the reservation.
pub start_checks : AiStart → AiConfig → AiUsage → Action AiTables (AiConfig × ℕ)
start_checks input config usage = do
  fail_if (config.enabled == 0 || ltb_ℤ config.default_monthly_limit (pos 0)) forbidden
  model ← or_fail (resolve input.model) invalid
  let config : AiConfig = record config { model = model.id }
  let reservation =
      reservation_points config.model input.estimated_input_tokens config.max_output_tokens
  fail_if (usage.mode == quota_blocked || over_limit usage reservation) unavailable
  pure (config, reservation)

-- The message and the request in a conversation, and the reservation.
pub write_request :
    ℕ
    → StartIds
    → String
    → String
    → AiStart
    → AiUsage
    → AiConfig
    → ℕ
    → String
    → Action AiTables (Result AiStarted)
unfolding add_message add_request user_message
write_request now new period user input usage config reservation id = do
  found ← gets (λ d. select_one (λ c. c.id == id && c.user_id == user) d.conversations)
  conversation ← or_fail found (normalize_db_error no_rows)
  add_message (normalize_db_error duplicate_key)
      (user_message now new.message conversation.id input)
  add_request (
      pending_request now new.request user conversation.id input.client_request_id config
        reservation)
  modify (reserve now user period reservation)
  commit (
      started conversation new.request config
        (record usage { reserved = usage.reserved + reservation }))

-- A request that was not made before.
pub start_new :
    ℕ
    → StartIds
    → String
    → String
    → String
    → AiStart
    → AiConfig
    → AiUsage
    → Action AiTables (Result AiStarted)
unfolding start_checks conversation_for write_request
start_new now new hash period user input config usage = do
  (config, reservation) ← start_checks input config usage
  id ← conversation_for now new.conversation hash user input
  write_request now new period user input usage config reservation id

-- The answer to a request that was made before.
pub replay : AiRequest → AiConfig → AiUsage → Action AiTables (Result AiStarted)
replay request config usage = do
  answer ← gets (answer_of request)
  conversation ← gets (λ d. select_one (λ c. c.id == request.conversation_id) d.conversations)
  commit (replayed conversation answer config usage)

-- The start, once the configuration is read.
pub start_with :
    ℕ
    → StartIds
    → String
    → String
    → ℕ
    → String
    → AiStart
    → AiConfig
    → Action AiTables (Result AiStarted)
unfolding start_new replay ai_usage_tx
start_with now new hash period reset_at user input config = do
  usage ← ai_usage_tx now period reset_at user config
  found ← gets (find_replay user input.client_request_id)
  elim found [
    | some request ↦ replay request config usage
    | none ↦ start_new now new hash period user input config usage
  ]

pub start_ai_request :
    ℕ → StartIds → String → String → ℕ → String → AiStart → Action AiTables AiStarted
unfolding start_with ai_config
start_ai_request now new hash period reset_at user input =
    if trim_space input.client_request_id == "" || trim_space input.message == ""
    then fail invalid
    else transaction
        do config ← ai_config; start_with now new hash period reset_at user input config
