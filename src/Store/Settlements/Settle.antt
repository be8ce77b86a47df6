-- ===== src/Store/Settlements/Settle.antt =====
-- The charge of a request to the assistant, internal/store/ai.go.
use classing_backend.Base.{
  ℕ, ◌≡◌, refl, ◌∙◌, ap, sym, String, some, arith, if◌then◌else◌, ◌==◌, nat_eq, string_eq, inl, inr,
  Option-cases,
}
use classing_backend.Base.Table.{select_one}
use classing_backend.AiCost.{TokenUsage}
use classing_backend.Store.Core.{
  ok, err, transaction, transaction-eq-ok, >>=-eq-ok, ◌>>=◌, normalize_db_error, no_rows, commit,
  or_fail, pure,
}
use classing_backend.Store.AiRows.{AiConfig, AiUsage, AiMonth, AiRequest, AiTables}
use classing_backend.Store.Quota.{find_month, open_month, usage_of, ai_config}
use classing_backend.Store.Settlements.{find_request, charge, settle_with, settle_ai_quota}
use classing_backend.Store.Requests.Months.{
  open_month-found, open_month-requests, open_month-config, ai_usage_tx-eq,
}
use classing_backend.Store.Settlements.Charge.{Charged, charge-Charged, counted_request}

settle-with :
    (now : ℕ) (credit_id period : String) (reset_at : ℕ) (id : String) (tokens : TokenUsage)
    (d : AiTables) (request : AiRequest) (config : AiConfig)
    → find_request id d ≡ some request
    → d.config ≡ some config
    → settle_ai_quota now credit_id period reset_at id tokens d
      ≡ transaction (settle_with now credit_id period reset_at id tokens request config) d
unfolding settle_ai_quota ai_config
settle-with now credit_id period reset_at id tokens d request config e k =
    ap
      (λ found.
        transaction
          (or_fail found (normalize_db_error no_rows) >>= λ (request : AiRequest).
            ai_config >>= λ (config : AiConfig).
            settle_with now credit_id period reset_at id tokens request config)
          d)
      e
    ∙ ap
        (λ found.
          transaction
            (or_fail found (normalize_db_error no_rows) >>= λ (config : AiConfig).
              settle_with now credit_id period reset_at id tokens request config)
            d)
        k

-- Without a configuration nothing is settled.
settle-config :
    (now : ℕ) (credit_id period : String) (reset_at : ℕ) (id : String) (tokens : TokenUsage)
    (d d' : AiTables) (request : AiRequest) (usage : AiUsage)
    → find_request id d ≡ some request
    → settle_ai_quota now credit_id period reset_at id tokens d ≡ (ok usage, d')
    → (config : AiConfig) × (d.config ≡ some config)
unfolding settle_ai_quota ai_config
settle-config now credit_id period reset_at id tokens d d' request usage e h =
    elim (Option-cases d.config) [ inl unset ↦ absurd (ground arith) | inr found ↦ found ]

module _ (now : ℕ) (credit_id period : String) (reset_at : ℕ) (id : String) (tokens : TokenUsage)
    (d : AiTables) (request : AiRequest) (config : AiConfig) (m : AiMonth)
    (f : find_month request.user_id period (open_month now request.user_id period d) ≡ some m) where
  settle_with-charge :
      (d' : AiTables) (usage : AiUsage)
      → request.quota_counted ≡ 0
      → settle_with now credit_id period reset_at id tokens request config d ≡ (ok (ok usage), d')
      → charge now credit_id period id request tokens
          (usage_of now request.user_id period reset_at config m
            (open_month now request.user_id period d))
          (open_month now request.user_id period d)
        ≡ (ok usage, d')
  unfolding settle_with
  settle_with-charge d' usage c h =
      let run = ai_usage_tx-eq now period reset_at request.user_id config d m f in
      let opened = open_month now request.user_id period d in
      let before = usage_of now request.user_id period reset_at config m opened in
      let pay = charge now credit_id period id request tokens in
      let same : settle_with now credit_id period reset_at id tokens request config d
          ≡ ((if request.quota_counted == 0 then pay before else pure before) >>= commit) opened =
        ap
          (λ t. elim t.0 [
            | ok a ↦ ((if request.quota_counted == 0 then pay a else pure a) >>= commit) t.1
            | err e ↦ (err e, t.1)
          ])
          run in
      let paid : (pay before >>= commit) opened ≡ (ok (ok usage), d') =
        ap (λ n. ((if n == 0 then pay before else pure before) >>= commit) opened) (sym c)
        ∙ sym same
        ∙ h in
      let step = >>=-eq-ok (pay before) commit opened d' (ok usage) paid in
      step.2 ∙ ground (arith, step.3)

  settle_with-counted :
      request.quota_counted ≡ 1
      → settle_with now credit_id period reset_at id tokens request config d ≡ (
        ok (
            ok (
              usage_of now request.user_id period reset_at config m
                (open_month now request.user_id period d))),
        open_month now request.user_id period d,
      )
  unfolding settle_with
  settle_with-counted c =
      let run = ai_usage_tx-eq now period reset_at request.user_id config d m f in ground arith

-- A request that was not charged yet and is settled is charged its price: what the month's use
-- grows by and what the wallet loses are together the points of its tokens, the reservation is
-- taken off the month's reserved points, and the request is marked as charged.
pub settle-Charged :
    (now : ℕ) (credit_id period : String) (reset_at : ℕ) (id : String) (tokens : TokenUsage)
    (d d' : AiTables) (request : AiRequest) (usage : AiUsage)
    → find_request id d ≡ some request
    → request.quota_counted ≡ 0
    → settle_ai_quota now credit_id period reset_at id tokens d ≡ (ok usage, d')
    → let opened = open_month now request.user_id period d in
      (m : AiMonth) × (find_month request.user_id period opened ≡ some m)
      × Charged period id tokens request m opened d'
settle-Charged now credit_id period reset_at id tokens d d' request usage e c h =
    let opened = open_month now request.user_id period d in
    let (m, f) = open_month-found now request.user_id period d in
    let (config, k) =
      settle-config now credit_id period reset_at id tokens d d' request usage e h in
    let body = settle_with now credit_id period reset_at id tokens request config in
    let run =
      settle_with-charge now credit_id period reset_at id tokens d request config m f d' usage c (
        transaction-eq-ok body d d' usage
          (sym (settle-with now credit_id period reset_at id tokens d request config e k) ∙ h)) in
    (
      m,
      f,
      charge-Charged now credit_id period id request tokens
          (usage_of now request.user_id period reset_at config m opened) usage m opened d' f
          (ground arith)
          (ap (select_one (λ r. r.id == id)) (open_month-requests now request.user_id period d) ∙ e)
          run,
    )

-- A request is charged once: after it was settled, to settle it again, in the same month or in
-- another one and with whatever tokens, at most opens the row of the month.
pub settle_once :
    (now : ℕ) (credit_id period : String) (reset_at : ℕ) (id : String) (tokens : TokenUsage)
    (d d' : AiTables) (request : AiRequest) (usage : AiUsage) (later : ℕ) (credit' period' : String)
    (reset' : ℕ) (tokens' : TokenUsage)
    → find_request id d ≡ some request
    → request.quota_counted ≡ 0
    → settle_ai_quota now credit_id period reset_at id tokens d ≡ (ok usage, d')
    → (settle_ai_quota later credit' period' reset' id tokens' d').1
      ≡ open_month later request.user_id period' d'
settle_once now credit_id period reset_at id tokens d d' request usage later credit' period' reset'
      tokens' e c h =
    let (m, f, r) =
      settle-Charged now credit_id period reset_at id tokens d d' request usage e c h in
    let (m', f') = open_month-found later request.user_id period' d' in
    let (config, k) =
      settle-config now credit_id period reset_at id tokens d d' request usage e h in
    let k' : d'.config ≡ some config =
      r.same_config ∙ open_month-config now request.user_id period d ∙ k in
    ap (λ t. t.1)
      (settle-with later credit' period' reset' id tokens' d' (counted_request tokens request)
          config r.counted k'
        ∙ ap (λ t. elim t.0 [ ok a ↦ (a, t.1) | err e ↦ (err e, d') ])
            (settle_with-counted later credit' period' reset' id tokens' d'
              (counted_request tokens request) config m' f' refl))
