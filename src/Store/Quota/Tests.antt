-- ===== src/Store/Quota/Tests.antt =====
-- Runs of the quotas and credits of internal/store/ai.go.
use classing_backend.Base.{◌≡◌, refl, Option, none, some, [], ◌∷◌}
use classing_backend.Base.Int.{ℤ, pos, negsuc}
use classing_backend.Base.Text.{trim_space, to_lower}
use classing_backend.Store.Core.{Result, ok, err, invalid, normalize_db_error}
use classing_backend.Store.AiRows.{AiUsage}
use classing_backend.Store.Fixtures.{assistant}
use classing_backend.Store.Accounts.{user_by_id, user_by_identifier}
use classing_backend.Store.Quota.{
  ai_usage, ai_config, ai_usage_tx, set_ai_quota, resolve_all, resolve_ai_user_id, grant_ai_credits,
  add_credit,
}

limit_of : Result AiUsage → Option ℤ
limit_of (ok u) = some u.limit
limit_of (err e) = none

-- A user without a membership has the free limit, unless the administrator has set another.
has_free_limit : limit_of (ai_usage 10 "2026-01" 99 "b" assistant).0 ≡ some (pos 500)
unfolding ai_usage ai_config ai_usage_tx limit_of
has_free_limit = refl

sets_a_quota :
    limit_of
      (ai_usage 10 "2026-01" 99 "b"
        (set_ai_quota 5 "a" ("bob" ∷ "b" ∷ []) "UNLIMITED" 0 assistant).1).0
    ≡ some (negsuc 0)
unfolding ai_usage ai_config ai_usage_tx limit_of set_ai_quota resolve_all resolve_ai_user_id
    user_by_id user_by_identifier trim_space to_lower normalize_db_error
sets_a_quota = refl

grants : (grant_ai_credits 5 "x" "a" "bob@example.org" 40 "thanks" assistant).0 ≡ ok 40
unfolding grant_ai_credits resolve_ai_user_id user_by_id user_by_identifier add_credit trim_space
    to_lower normalize_db_error
grants = refl

grants_only_points : (grant_ai_credits 5 "x" "a" "b" 0 "" assistant).0 ≡ err invalid
unfolding grant_ai_credits trim_space
grants_only_points = refl
