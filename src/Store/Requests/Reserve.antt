-- ===== src/Store/Requests/Reserve.antt =====
-- The reservation of a request to the assistant, internal/store/ai.go.
use classing_backend.Base.{
  ℕ, ◌+◌, ◌≡◌, ◌∙◌, ap, String, false, ◌&&◌, ◌||◌, Option, none, some, [], ◌∷◌, ◌++◌, arith, ◌==◌,
  nat_eq, string_eq, inl, inr, Option-cases,
}
use classing_backend.Base.Table.{select_one, update_where}
use classing_backend.Base.Text.{trim_space}
use classing_backend.AiCost.{resolve}
use classing_backend.Store.Core.{
  Result, ok, Action, transaction, >>=-eq-ok, ◌>>=◌, normalize_db_error, no_rows, or_fail,
}
use classing_backend.Store.AiRows.{AiConfig, AiConversation, AiUsage, AiMonth, AiRequest, AiTables}
use classing_backend.Store.Quota.{find_month, open_month, usage_of, ai_config}
use classing_backend.Store.Requests.{
  AiStart, AiStarted, started, StartIds, over_limit, find_replay, add_conversation, add_message,
  add_request, reserve, conversation_for, pending_request, start_checks, write_request, start_new,
  replay, start_with, start_ai_request,
}
use classing_backend.Store.Requests.Months.{ai_usage_tx-eq}

-- Finding or making the conversation touches neither the months nor the requests.
conversation_for-keeps :
    (now : ℕ) (new_id hash user : String) (input : AiStart) (d d' : AiTables) (id : String)
    → conversation_for now new_id hash user input d ≡ (ok id, d')
    → (d'.months ≡ d.months) × (d'.requests ≡ d.requests) × (d'.config ≡ d.config)
unfolding conversation_for add_conversation
conversation_for-keeps now new_id hash user input d d' id h =
    (ground arith, ground arith, ground arith)

-- What the insertions of a start leave.
pub record Added (now : ℕ) (id user period : String) (input : AiStart) (usage : AiUsage)
    (d d' : AiTables) (r : AiStarted) : Type 0 where
  pub reservation : ℕ
  pub conversation : AiConversation
  pub config' : AiConfig
  pub fits : over_limit usage reservation ≡ false
  pub result :
      r ≡ started conversation id config' (record usage { reserved = usage.reserved + reservation })
  pub months : d'.months ≡ (reserve now user period reservation d).months
  pub requests :
      d'.requests
      ≡ d.requests
        ++ pending_request now id user conversation.id input.client_request_id config' reservation
          ∷ []
  pub same_config : d'.config ≡ d.config

start_checks-eq-ok :
    (input : AiStart) (config config' : AiConfig) (usage : AiUsage) (reservation : ℕ)
    (d d' : AiTables)
    → start_checks input config usage d ≡ (ok (config', reservation), d')
    → (d' ≡ d) × (over_limit usage reservation ≡ false)
unfolding start_checks
start_checks-eq-ok input config config' usage reservation d d' h =
    elim (Option-cases (resolve input.model)) [
      | inl e ↦ absurd (ground arith)
      | inr (model, e) ↦ (ground arith, ground arith)
    ]

write_request-Added :
    (now : ℕ) (new : StartIds) (period user : String) (input : AiStart) (usage : AiUsage)
    (config : AiConfig) (reservation : ℕ) (id : String) (d d' : AiTables) (r : AiStarted)
    → over_limit usage reservation ≡ false
    → write_request now new period user input usage config reservation id d ≡ (ok (ok r), d')
    → Added now new.request user period input usage d d' r
unfolding write_request add_message add_request
write_request-Added now new period user input usage config reservation id d d' r fits h =
    elim (Option-cases (select_one (λ c. c.id == id && c.user_id == user) d.conversations)) [
      | inl e ↦ absurd (ground arith)
      | inr (conversation, e) ↦ record {
        reservation = reservation;
        conversation = conversation;
        config' = config;
        fits = fits;
        result = ground arith;
        months = ground arith;
        requests = ground arith;
        same_config = ground arith;
      }
    ]

pub start_new-Added :
    (now : ℕ) (new : StartIds) (hash period user : String) (input : AiStart) (config : AiConfig)
    (usage : AiUsage) (d d' : AiTables) (r : AiStarted)
    → start_new now new hash period user input config usage d ≡ (ok (ok r), d')
    → Added now new.request user period input usage d d' r
unfolding start_new
start_new-Added now new hash period user input config usage d d' r h =
    let make = conversation_for now new.conversation hash user input in
    let write : (AiConfig × ℕ) → String → Action AiTables (Result AiStarted) =
      λ c. write_request now new period user input usage c.0 c.1 in
    let first = >>=-eq-ok (start_checks input config usage) (λ c. make >>= write c) d d' (ok r) h in
    let checked = start_checks-eq-ok input config first.0.0 usage first.0.1 d first.1 first.2 in
    let second = >>=-eq-ok make (write first.0) first.1 d' (ok r) first.3 in
    let made =
      conversation_for-keeps now new.conversation hash user input first.1 second.1 second.0
        second.2 in
    let a =
      write_request-Added now new period user input usage first.0.0 first.0.1 second.0 second.1 d' r
        checked.1 second.3 in
    record {
      reservation = a.reservation;
      conversation = a.conversation;
      config' = a.config';
      fits = a.fits;
      result = a.result;
      months =
          a.months
          ∙ ap
              (update_where (λ m. m.user_id == user && m.period == period)
                (λ m. record m { reserved = m.reserved + a.reservation; updated_at = now }))
              (made.0 ∙ ap (λ t. t.months) checked.0);
      requests =
          a.requests
          ∙ ap
              (λ rs.
                rs
                ++ pending_request now new.request user a.conversation.id input.client_request_id
                    a.config' a.reservation
                  ∷ [])
              (made.1 ∙ ap (λ t. t.requests) checked.0);
      same_config = a.same_config ∙ made.2 ∙ ap (λ t. t.config) checked.0;
    }

pub start-with :
    (now : ℕ) (new : StartIds) (hash period : String) (reset_at : ℕ) (user : String)
    (input : AiStart) (d : AiTables) (config : AiConfig)
    → (trim_space input.client_request_id == "" || trim_space input.message == "") ≡ false
    → d.config ≡ some config
    → start_ai_request now new hash period reset_at user input d
      ≡ transaction (start_with now new hash period reset_at user input config) d
unfolding start_ai_request ai_config
start-with now new hash period reset_at user input d config b k =
    rw (b, start_ai_request)
      (ap
        (λ found.
          transaction
            (or_fail found (normalize_db_error no_rows) >>= λ (config : AiConfig).
              start_with now new hash period reset_at user input config)
            d)
        k)

-- A start that succeeds has a message and a configuration.
pub start-config :
    (now : ℕ) (new : StartIds) (hash period : String) (reset_at : ℕ) (user : String)
    (input : AiStart) (d d' : AiTables) (r : AiStarted)
    → start_ai_request now new hash period reset_at user input d ≡ (ok r, d')
    → ((trim_space input.client_request_id == "" || trim_space input.message == "") ≡ false)
      × (config : AiConfig) × (d.config ≡ some config)
unfolding start_ai_request ai_config
start-config now new hash period reset_at user input d d' r h = elim (Option-cases d.config) [
  | inl unset ↦ absurd (ground arith)
  | inr (config, k) ↦ (ground arith, config, k)
]

abbrev pub continue :
    ℕ
    → StartIds
    → String
    → String
    → String
    → AiStart
    → AiConfig
    → AiUsage
    → Option AiRequest
    → Action AiTables (Result AiStarted)
continue now new hash period user input config usage none =
    start_new now new hash period user input config usage
continue now new hash period user input config usage (some request) = replay request config usage

-- The start on a month that is open, with the usage that it reads.
pub start_with-opened :
    (now : ℕ) (new : StartIds) (hash period : String) (reset_at : ℕ) (user : String)
    (input : AiStart) (config : AiConfig) (d : AiTables) (m : AiMonth) (found : Option AiRequest)
    → find_month user period (open_month now user period d) ≡ some m
    → find_replay user input.client_request_id (open_month now user period d) ≡ found
    → let opened = open_month now user period d in
      start_with now new hash period reset_at user input config d
      ≡ continue now new hash period user input config
          (usage_of now user period reset_at config m opened)
          found
          opened
unfolding start_with
start_with-opened now new hash period reset_at user input config d m none f e =
    let run = ai_usage_tx-eq now period reset_at user config d m f in ground arith
start_with-opened now new hash period reset_at user input config d m (some request) f e =
    let run = ai_usage_tx-eq now period reset_at user config d m f in ground arith
