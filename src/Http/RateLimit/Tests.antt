-- ===== src/Http/RateLimit/Tests.antt =====
-- Runs of the rate limiter of internal/httpapi/middleware.go.
use classing_backend.Base.{ℕ, ◌≤◌, ◌≡◌, refl, true, none, some, [], ◌∷◌, arith, min, ◌-◌}
use classing_backend.Base.Dict.{lookup}
use classing_backend.Http.RateLimit.{
  RateWindow, RateLimiter, allows, fails, new_rate_limiter, new_rate_limiter_with_cap, run, size,
  allow, evict_oldest, current_window, ensure_capacity, sort_by_age, insert_by_age, erase_first,
}
use classing_backend.Http.RateLimit.Capacity.{Inv, size-run-le}
use classing_backend.Http.RateLimit.Window.{admitted, admitted-eq, asked}

abbrev window_at : ℕ → ℕ → RateWindow
window_at started count = record { started = started; count = count }

abbrev two_clients : RateLimiter
two_clients = record {
  limit = 2;
  window = 60;
  max_entries = 4;
  clients = ("a", window_at 10 1) ∷ ("b", window_at 12 1) ∷ [];
}

abbrev full : RateLimiter
full = record two_clients {
  clients =
      ("a", window_at 10 1)
      ∷ ("b", window_at 9 1)
      ∷ ("c", window_at 12 1)
      ∷ ("d", window_at 13 1)
      ∷ [];
}

abbrev made : RateLimiter
made = new_rate_limiter 2 60

two_clients-Inv : Inv 4 two_clients
two_clients-Inv = record {
  distinct = (refl, (refl, tt));
  room = omega arith;
  same_cap = refl;
  bounded = omega arith;
}

size-run-le_example :
    size (
      run
        (new_rate_limiter_with_cap 2 60 2)
        ((1, allows "a") ∷ (2, fails "b") ∷ (3, allows "c") ∷ []))
    ≤ 2
size-run-le_example =
    size-run-le 2 60 2 ((1, allows "a") ∷ (2, fails "b") ∷ (3, allows "c") ∷ []) (omega arith)

evicts : lookup "b" (evict_oldest full).clients ≡ none
unfolding evict_oldest sort_by_age insert_by_age erase_first
evicts = refl

keeps : lookup "a" (evict_oldest full).clients ≡ some (window_at 10 1)
unfolding evict_oldest sort_by_age insert_by_age erase_first
keeps = refl

admitted-eq_example :
    admitted "a" two_clients ((20, "a") ∷ (21, "a") ∷ [])
    ≡ min (asked "a" ((20, "a") ∷ (21, "a") ∷ [])) (2 - 1)
admitted-eq_example =
    admitted-eq "a" ((20, "a") ∷ (21, "a") ∷ []) two_clients (window_at 10 1) refl (omega arith)
      (omega arith)

first_is_admitted : (allow 1 "a" made).1 ≡ true
unfolding allow new_rate_limiter new_rate_limiter_with_cap current_window ensure_capacity
first_is_admitted = refl
