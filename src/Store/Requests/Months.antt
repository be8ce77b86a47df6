-- ===== src/Store/Requests/Months.antt =====
-- The month's row of internal/store/ai.go, and how a request reserves points in it.
use classing_backend.Base.{
  ℕ, ◌+◌, ◌≡◌, refl, String, ◌&&◌, some, [], ◌∷◌, arith, ◌==◌, nat_eq, string_eq, inl, inr,
  Option-cases, beq_refl,
}
use classing_backend.Base.Table.{
  select_one-append, select_one-update_where, select_one_passes, select_one-none,
}
use classing_backend.Store.Core.{ok}
use classing_backend.Store.AiRows.{AiConfig, AiMonth, AiTables}
use classing_backend.Store.Quota.{find_month, open_month, usage_of, ai_usage_tx}
use classing_backend.Store.Requests.{reserve}

-- There is a row for the month, once it is opened.
pub open_month-found :
    (now : ℕ) (user period : String) (d : AiTables)
    → (m : AiMonth) × (find_month user period (open_month now user period d) ≡ some m)
open_month-found now user period d = elim (Option-cases (find_month user period d)) [
  | inl e ↦ (
    record { user_id = user; period = period; used = 0; reserved = 0; updated_at = now },
    ground (
      arith,
      select_one-none (λ m. m.user_id == user && m.period == period) d.months e,
      select_one-append (λ m. m.user_id == user && m.period == period) d.months
          (record { user_id = user; period = period; used = 0; reserved = 0; updated_at = now }
            ∷ []),
      beq_refl user,
      beq_refl period,
    ),
  )
  | inr (m, e) ↦ (
    m,
    ground (arith, select_one_passes (λ m. m.user_id == user && m.period == period) d.months m e),
  )
]

-- A month that is open is left as it is.
pub open_month-open :
    (now : ℕ) (user period : String) (d : AiTables) (m : AiMonth)
    → find_month user period d ≡ some m
    → open_month now user period d ≡ d
open_month-open now user period d m e =
    ground (arith, select_one_passes (λ m. m.user_id == user && m.period == period) d.months m e)

-- What is read back is the month's row and the limits of the user.
pub ai_usage_tx-eq :
    (now : ℕ) (period : String) (reset_at : ℕ) (user : String) (config : AiConfig) (d : AiTables)
    (m : AiMonth)
    → find_month user period (open_month now user period d) ≡ some m
    → ai_usage_tx now period reset_at user config d ≡ (
      ok (usage_of now user period reset_at config m (open_month now user period d)),
      open_month now user period d,
    )
unfolding ai_usage_tx
ai_usage_tx-eq now period reset_at user config d m e = ground arith

pub find_month-reserve :
    (now : ℕ) (user period : String) (points : ℕ) (d : AiTables) (m : AiMonth)
    → find_month user period d ≡ some m
    → find_month user period (reserve now user period points d)
      ≡ some (record m { reserved = m.reserved + points; updated_at = now })
find_month-reserve now user period points d m e = ground (
  arith,
  select_one-update_where (λ m. m.user_id == user && m.period == period)
      (λ m. m.user_id == user && m.period == period)
      (λ m. record m { reserved = m.reserved + points; updated_at = now }) d.months (λ m. refl),
  select_one_passes (λ m. m.user_id == user && m.period == period) d.months m e,
)

pub open_month-requests :
    (now : ℕ) (user period : String) (d : AiTables)
    → (open_month now user period d).requests ≡ d.requests
open_month-requests now user period d = ground arith

pub open_month-config :
    (now : ℕ) (user period : String) (d : AiTables)
    → (open_month now user period d).config ≡ d.config
open_month-config now user period d = ground arith
