-- ===== src/Store/Settlements.antt =====
-- internal/store/ai.go: the charge for a request to the assistant when the provider has answered, its end,
-- and the deletion of a conversation.
pub mod Charge
pub mod Settle
mod Tests
use Prim.Native.String as String
use Prim.Native.String.{◌++◌ as concat}
use classing_backend.Base.{
  ℕ, zero, suc, ◌+◌, ◌-◌, min, max, String, Bool, true, false, not, ◌&&◌, ◌||◌, Option, none, some,
  List, [], ◌∷◌, ◌++◌, leb, ltb, if◌then◌else◌, ◌==◌, nat_eq, string_eq,
}
use classing_backend.Base.Int.{ℤ, pos, negsuc, ltb_ℤ}
use classing_backend.Base.Table.{select_one, count_where, update_where, delete_where}
use classing_backend.Base.Text.{trim_space, rune_count}
use classing_backend.AiCost.{Model, TokenUsage, resolve, points, reservation_points}
use classing_backend.Store.Core.{
  Error, not_found, forbidden, invalid, unavailable, database, duplicate_key, no_rows,
  normalize_db_error, Result, ok, err, Action, pure, fail, gets, or_fail, ◌>>=◌, ◌>>◌, fail_if,
  modify, transaction, commit, insert_row,
}
use classing_backend.Store.AiRows.{
  AiConfig, AiConversation, AiMessage, AiUsage, AiMonth, AiWallet, AiCredit, AiRequest, AiTables,
}
use classing_backend.Store.Quota.{quota_blocked, ai_config, ai_usage_tx, add_credit}
use classing_backend.Store.Requests.{add_message}

abbrev pub find_request : String → AiTables → Option AiRequest
find_request id d = select_one (λ r. r.id == id) d.requests

-- How the points of a request are split between the month and the credits.
abbrev pub split_points : AiUsage → ℕ → ℕ × ℕ
split_points usage points = elim usage.limit [
  | negsuc _ ↦ (points, 0)
  | pos limit ↦
      let monthly = min points (limit - usage.used) in
      let credit = min (points - monthly) usage.credit_available in
      (monthly + (points - monthly - credit), credit)
]

-- UPDATE ai_usage_monthly SET reserved = max(reserved - reservation, 0), used = used + monthly
abbrev pub charge_month : ℕ → String → String → ℕ → ℕ → AiTables → AiTables
charge_month now user period reservation monthly d = record d {
  months =
      update_where (λ m. m.user_id == user && m.period == period)
        (λ m. record m {
          reserved = if leb reservation m.reserved then m.reserved - reservation else 0;
          used = m.used + monthly;
          updated_at = now;
        })
        d.months;
}

-- UPDATE ai_credit_wallets SET balance = balance - credit WHERE balance >= credit
abbrev pub charge_wallet : ℕ → String → ℕ → AiTables → AiTables
charge_wallet now user credit d = record d {
  wallets =
      update_where (λ w. w.user_id == user && leb credit w.balance)
        (λ w. record w { balance = w.balance - credit; updated_at = now }) d.wallets;
}

abbrev negative : ℕ → ℤ
negative zero = pos 0
negative (suc n) = negsuc n

-- The part that the credits pay.
pay_credits : ℕ → String → String → String → ℕ → AiUsage → Action AiTables AiUsage
unfolding add_credit
pay_credits now credit_id request user credit usage =
    if ltb 0 credit
    then (do
      affected ← gets (λ d. count_where (λ w. w.user_id == user && leb credit w.balance) d.wallets)
      modify (charge_wallet now user credit)
      fail_if (not (affected == 1)) unavailable
      let balance = usage.credit_balance - credit
      add_credit (database duplicate_key) (record {
        id = credit_id;
        user_id = user;
        points = negative credit;
        balance_after = balance;
        source = "AI_USAGE";
        reference_id = request;
        note = "";
        actor_id = "";
        created_at = now;
      })
      pure (record usage { credit_balance = balance; credit_available = balance }))
    else pure usage

-- UPDATE ai_requests SET quota_counted = 1, ...
abbrev pub mark_counted : String → TokenUsage → ℕ → AiTables → AiTables
mark_counted id tokens points d = record d {
  requests =
      update_where (λ r. r.id == id)
        (λ r. record r {
          quota_counted = 1;
          input_tokens = tokens.input_tokens;
          cached_input_tokens = tokens.cached_input_tokens;
          output_tokens = tokens.output_tokens;
          cost_points = points;
        })
        d.requests;
}

-- The charge for a request that was not charged before.
pub charge :
    ℕ → String → String → String → AiRequest → TokenUsage → AiUsage → Action AiTables AiUsage
unfolding pay_credits
charge now credit_id period id request tokens usage = do
  let cost = points request.model tokens
  let monthly = (split_points usage cost).0
  let credit = (split_points usage cost).1
  modify (charge_month now request.user_id period request.reserved_points monthly)
  usage ← pay_credits now credit_id id request.user_id credit usage
  modify (mark_counted id tokens cost)
  pure (record usage {
    reserved = usage.reserved - request.reserved_points;
    used = usage.used + monthly;
  })

-- The charge, once the request and the configuration are read.
pub settle_with :
    ℕ
    → String
    → String
    → ℕ
    → String
    → TokenUsage
    → AiRequest
    → AiConfig
    → Action AiTables (Result AiUsage)
unfolding charge ai_usage_tx
settle_with now credit_id period reset_at id tokens request config = do
  usage ← ai_usage_tx now period reset_at request.user_id config
  usage ←
      if request.quota_counted == 0
      then charge now credit_id period id request tokens usage
      else pure usage
  commit usage

pub settle_ai_quota : ℕ → String → String → ℕ → String → TokenUsage → Action AiTables AiUsage
unfolding settle_with ai_config
settle_ai_quota now credit_id period reset_at id tokens = transaction do
  found ← gets (find_request id)
  request ← or_fail found (normalize_db_error no_rows)
  config ← ai_config
  settle_with now credit_id period reset_at id tokens request config

-- The reservation of a request that was not charged.
release : ℕ → String → ℕ → AiRequest → Action AiTables (Unit {0})
unfolding ai_config ai_usage_tx
release now period reset_at request =
    if request.quota_counted == 0
    then (do
      config ← ai_config
      ai_usage_tx now period reset_at request.user_id config
      modify (charge_month now request.user_id period request.reserved_points 0))
    else pure tt

pub finish_ai_request :
    ℕ → String → String → ℕ → String → String → String → String → ℕ → Action AiTables (Unit {0})
unfolding release add_message
finish_ai_request now message_id period reset_at id response status error_code latency =
    transaction do
      found ← gets (find_request id)
      request ← or_fail found (normalize_db_error no_rows)
      release now period reset_at request
      modify λ d. record d {
        requests =
            update_where (λ r. r.id == id)
              (λ r. record r {
                status = status;
                error_code = error_code;
                latency_ms = latency;
                completed_at = now;
              })
              d.requests;
        messages =
            update_where
              (λ m.
                m.conversation_id == request.conversation_id
                && m.role == "USER"
                && m.status == "PENDING")
              (λ m. record m { status = status }) d.messages;
      }
      if response == ""
          then pure tt
          else add_message (database duplicate_key) (record {
            id = message_id;
            conversation_id = request.conversation_id;
            role = "ASSISTANT";
            content = response;
            status = "COMPLETE";
            client_request_id = id;
            created_at = now;
            completed_at = now;
          })
      modify λ d. record d {
        conversations =
            update_where (λ c. c.id == request.conversation_id) (λ c. record c { updated_at = now })
              d.conversations;
      }
      commit tt

-- What hangs on a conversation goes with it.
pub delete_ai_conversation : String → String → Action AiTables (Unit {0})
delete_ai_conversation user id = do
  affected ← gets (λ d. count_where (λ c. c.id == id && c.user_id == user) d.conversations)
  fail_if (affected == 0) not_found
  modify λ d. record d {
    conversations = delete_where (λ c. c.id == id && c.user_id == user) d.conversations;
    messages = delete_where (λ m. m.conversation_id == id) d.messages;
    requests = delete_where (λ r. r.conversation_id == id) d.requests;
  }
