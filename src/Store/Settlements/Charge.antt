-- ===== src/Store/Settlements/Charge.antt =====
-- What a request to the assistant costs, internal/store/ai.go.
use classing_backend.Base.{
  Bool, if◌then◌else◌, leb, ℕ, ◌<◌, ◌+◌, ◌-◌, ◌≤◌, ◌≡◌, refl, ◌∙◌, ap, sym, String, ◌&&◌, some,
  arith, ltb, ◌==◌, nat_eq, string_eq, inl, inr, Bool-cases, Option-cases,
}
use classing_backend.Base.Table.{
  select_one, update_where, select_one-update_where, select_one_passes,
}
use classing_backend.AiCost.{TokenUsage, points}
use classing_backend.Store.Core.{ok, >>=-eq-ok, ◌>>◌, modify, pure}
use classing_backend.Store.AiRows.{AiUsage, AiMonth, AiRequest, AiTables}
use classing_backend.Store.Quota.{find_month, balance_of, add_credit}
use classing_backend.Store.Settlements.{
  find_request, split_points, charge_month, charge_wallet, pay_credits, mark_counted, charge,
}

find_month-charge_month :
    (now : ℕ) (user period : String) (reservation monthly : ℕ) (d : AiTables) (m : AiMonth)
    → find_month user period d ≡ some m
    → find_month user period (charge_month now user period reservation monthly d)
      ≡ some (record m {
        reserved = m.reserved - reservation;
        used = m.used + monthly;
        updated_at = now;
      })
find_month-charge_month now user period reservation monthly d m e =
    let p : AiMonth → Bool = λ m. m.user_id == user && m.period == period in
    let f : AiMonth → AiMonth = λ m. record m {
      reserved = if leb reservation m.reserved then m.reserved - reservation else 0;
      used = m.used + monthly;
      updated_at = now;
    } in
    let less : (if leb reservation m.reserved then m.reserved - reservation else 0)
        ≡ m.reserved - reservation =
      ground arith in
    let same : f m ≡ record m {
      reserved = m.reserved - reservation;
      used = m.used + monthly;
      updated_at = now;
    } =
      ap (λ r. record m { reserved = r; used = m.used + monthly; updated_at = now }) less in
    ground (
      arith,
      select_one-update_where p p f d.months (λ m. refl),
      select_one_passes p d.months m e,
      same,
    )

-- The month and the credits together pay the whole price, and no more credits than there are.
split_points-sum :
    (usage : AiUsage) (cost : ℕ)
    → ((split_points usage cost).0 + (split_points usage cost).1 ≡ cost)
      × ((split_points usage cost).1 ≤ usage.credit_available)
split_points-sum usage cost = (ground arith, ground arith)

balance_of-charge_wallet :
    (now : ℕ) (user : String) (credit : ℕ) (d : AiTables)
    → 0 < credit
    → credit ≤ balance_of user d
    → balance_of user (charge_wallet now user credit d) + credit ≡ balance_of user d
balance_of-charge_wallet now user credit d some_credit le =
    elim (Option-cases (select_one (λ w. w.user_id == user) d.wallets)) [
      | inl e ↦ absurd (ground arith)
      | inr (w, e) ↦ ground (
        arith,
        select_one-update_where (λ w. w.user_id == user)
            (λ w. w.user_id == user && leb credit w.balance)
            (λ w. record w { balance = w.balance - credit; updated_at = now }) d.wallets
            (λ w. refl),
        select_one_passes (λ w. w.user_id == user) d.wallets w e,
      )
    ]

-- What paying with credits leaves.
pay_credits-eq-ok :
    (now : ℕ) (credit_id request user : String) (credit : ℕ) (usage usage' : AiUsage)
    (d d' : AiTables)
    → credit ≤ balance_of user d
    → pay_credits now credit_id request user credit usage d ≡ (ok usage', d')
    → (d'.months ≡ d.months)
      × (d'.requests ≡ d.requests)
      × (d'.config ≡ d.config)
      × (balance_of user d' + credit ≡ balance_of user d)
unfolding pay_credits add_credit
pay_credits-eq-ok now credit_id request user credit usage usage' d d' le h =
    elim (Bool-cases (ltb 0 credit)) [
      | inl some_credit ↦ (
        ground arith,
        ground arith,
        ground arith,
        ground (arith, balance_of-charge_wallet now user credit d),
      )
      | inr no_credit ↦ (ground arith, ground arith, ground arith, ground arith)
    ]

-- The request, charged.
abbrev pub counted_request : TokenUsage → AiRequest → AiRequest
counted_request tokens r = record r {
  quota_counted = 1;
  input_tokens = tokens.input_tokens;
  cached_input_tokens = tokens.cached_input_tokens;
  output_tokens = tokens.output_tokens;
  cost_points = points r.model tokens;
}

-- What a charge makes of the month `m` and of the wallet.
pub record Charged (period id : String) (tokens : TokenUsage) (request : AiRequest) (m : AiMonth)
    (d d' : AiTables) : Type 0 where
  pub month : AiMonth
  pub found : find_month request.user_id period d' ≡ some month
  pub released : month.reserved ≡ m.reserved - request.reserved_points
  pub paid :
      month.used + balance_of request.user_id d
      ≡ m.used + points request.model tokens + balance_of request.user_id d'
  pub counted : find_request id d' ≡ some (counted_request tokens request)
  pub same_config : d'.config ≡ d.config

find_request-counted :
    (id : String) (tokens : TokenUsage) (request : AiRequest) (d d' : AiTables)
    → find_request id d ≡ some request
    → d'.requests ≡ (mark_counted id tokens (points request.model tokens) d).requests
    → find_request id d' ≡ some (counted_request tokens request)
find_request-counted id tokens request d d' e same =
    ap (select_one (λ r. r.id == id)) same
    ∙ ground (
      arith,
      select_one-update_where (λ r. r.id == id) (λ r. r.id == id)
          (λ r. record r {
            quota_counted = 1;
            input_tokens = tokens.input_tokens;
            cached_input_tokens = tokens.cached_input_tokens;
            output_tokens = tokens.output_tokens;
            cost_points = points request.model tokens;
          })
          d.requests (λ r. refl),
      select_one_passes (λ r. r.id == id) d.requests request e,
    )

pub charge-Charged :
    (now : ℕ) (credit_id period id : String) (request : AiRequest) (tokens : TokenUsage)
    (usage usage' : AiUsage) (m : AiMonth) (d d' : AiTables)
    → find_month request.user_id period d ≡ some m
    → usage.credit_available ≤ balance_of request.user_id d
    → find_request id d ≡ some request
    → charge now credit_id period id request tokens usage d ≡ (ok usage', d')
    → Charged period id tokens request m d d'
unfolding charge
charge-Charged now credit_id period id request tokens usage usage' m d d' e le r h =
    let cost = points request.model tokens in
    let monthly = (split_points usage cost).0 in
    let credit = (split_points usage cost).1 in
    let d₁ = charge_month now request.user_id period request.reserved_points monthly d in
    let sum = split_points-sum usage cost in
    let step =
      >>=-eq-ok (pay_credits now credit_id id request.user_id credit usage)
        (λ usage.
          modify (mark_counted id tokens cost)
          >> pure (record usage {
            reserved = usage.reserved - request.reserved_points;
            used = usage.used + monthly;
          }))
        d₁ d' usage' h in
    let paid =
      pay_credits-eq-ok now credit_id id request.user_id credit usage step.0 d₁ step.1
        (omega (arith, sum.1)) step.2 in
    let last : d' ≡ mark_counted id tokens cost step.1 = ap (λ r. r.1) (sym step.3) in
    record {
      month = record m {
        reserved = m.reserved - request.reserved_points;
        used = m.used + monthly;
        updated_at = now;
      };
      found =
          ap (find_month request.user_id period) last
          ∙ ap (select_one (λ m. m.user_id == request.user_id && m.period == period)) paid.0
          ∙ find_month-charge_month now request.user_id period request.reserved_points monthly d m
              e;
      released = refl;
      paid = rw last (omega (arith, paid.3, sum.0));
      counted = find_request-counted id tokens request d d' r (
          ap (λ t. t.requests) last
          ∙ ap
              (update_where (λ r. r.id == id)
                (λ r. record r {
                  quota_counted = 1;
                  input_tokens = tokens.input_tokens;
                  cached_input_tokens = tokens.cached_input_tokens;
                  output_tokens = tokens.output_tokens;
                  cost_points = cost;
                }))
              paid.1);
      same_config = ap (λ t. t.config) last ∙ paid.2;
    }
