-- ===== src/Http/RateLimit.antt =====
-- internal/httpapi/middleware.go: the fixed-window rate limiter. A mutex makes each method one step,
-- so a method is a function from the limiter to the new limiter. The clock is an argument, `now`, and
-- never runs behind a window's start. Counts do not reach the end of Go's int.
pub mod Capacity
pub mod Eviction
pub mod Window
mod Tests
use classing_backend.Base.{
  ℕ, zero, suc, ◌+◌, ◌-◌, ◌*◌, ◌/◌, String, Bool, true, false, Option, none, some, List, [], ◌∷◌,
  map, ltb, leb, if◌then◌else◌, ◌≡◌, refl, inl, inr, Bool-cases, Option-cases, arith,
}
use classing_backend.Base.Lists.{length}
use classing_backend.Base.Table.{delete_where}
use classing_backend.Base.Dict.{lookup, insert, erase}

pub record RateWindow : Type 0 where
  pub started : ℕ
  pub count : ℕ

pub record RateLimiter : Type 0 where
  pub limit : ℕ
  pub window : ℕ
  pub max_entries : ℕ
  pub clients : List (String × RateWindow)

abbrev pub default_max_rate_entries : ℕ
default_max_rate_entries = 8192

pub new_rate_limiter_with_cap : ℕ → ℕ → ℕ → RateLimiter
new_rate_limiter_with_cap limit window max_entries = record {
  limit = limit;
  window = window;
  max_entries = if ltb max_entries 1 then 1 else max_entries;
  clients = [];
}

pub new_rate_limiter : ℕ → ℕ → RateLimiter
unfolding new_rate_limiter_with_cap
new_rate_limiter limit window = new_rate_limiter_with_cap limit window default_max_rate_entries

-- now.Sub(item.started) >= l.window
abbrev pub is_expired : ℕ → ℕ → RateWindow → Bool
is_expired window now item = leb window (now - item.started)

pub sweep_expired : ℕ → RateLimiter → RateLimiter
sweep_expired now l = record l {
  clients = delete_where (λ e. is_expired l.window now e.1) l.clients;
}

-- sort.Slice by `started`, ascending; entries of one age keep the list's order.
pub insert_by_age : String × RateWindow → List (String × RateWindow) → List (String × RateWindow)
insert_by_age e [] = e ∷ []
insert_by_age e (f ∷ es) =
    let rest = insert_by_age e es in if leb e.1.started f.1.started then e ∷ f ∷ es else f ∷ rest

pub sort_by_age : List (String × RateWindow) → List (String × RateWindow)
sort_by_age [] = []
sort_by_age (e ∷ es) = insert_by_age e (sort_by_age es)

-- for i := 0; i < n; i++ { delete(clients, entries[i].key) }
pub erase_first :
    ℕ → List (String × RateWindow) → List (String × RateWindow) → List (String × RateWindow)
erase_first zero entries clients = clients
erase_first (suc n) [] clients = clients
erase_first (suc n) ((k, _) ∷ entries) clients = erase_first n entries (erase k clients)

abbrev pub evict_target : ℕ → ℕ
evict_target max_entries = let target = max_entries * 3 / 4 in if ltb target 1 then 1 else target

pub evict_oldest : RateLimiter → RateLimiter
evict_oldest l = if leb (length l.clients) (evict_target l.max_entries) then l else record l {
  clients =
      erase_first (length l.clients - evict_target l.max_entries) (sort_by_age l.clients) l.clients;
}

pub ensure_capacity : ℕ → RateLimiter → RateLimiter
unfolding sweep_expired
ensure_capacity now l =
    if ltb (length l.clients) l.max_entries
    then l
    else (let swept = sweep_expired now l in
        if leb swept.max_entries (length swept.clients) then evict_oldest swept else swept)

-- The part that `allow` and `recordFailure` share: the window that is counted, and the room made
-- for a new one.
pub current_window : ℕ → String → RateLimiter → RateLimiter × RateWindow
current_window now key l =
    let fresh : RateLimiter × RateWindow =
      (ensure_capacity now l, record { started = now; count = 0 }) in
    elim (lookup key l.clients) [
      | none ↦ fresh
      | some item ↦ if is_expired l.window now item then fresh else (l, item)
    ]

-- The window that is counted is a fresh one, or the key's own which has not run out.
pub current_window_cases {ℓ} :
    (P : RateLimiter × RateWindow → Type ℓ) (now : ℕ) (key : String) (l : RateLimiter)
    → P (ensure_capacity now l, record { started = now; count = 0 })
    → ((item : RateWindow)
        → lookup key l.clients ≡ some item
        → is_expired l.window now item ≡ false
        → P (l, item))
    → P (current_window now key l)
unfolding current_window
current_window_cases P now key l fresh old = elim (Option-cases (lookup key l.clients)) [
  | inl e ↦ rw (e, current_window) fresh
  | inr (item, e) ↦ elim (Bool-cases (is_expired l.window now item)) [
    | inl x ↦ rw (e, current_window, x) fresh
    | inr x ↦ rw (e, current_window, x) (old item e x)
  ]
]

abbrev pub bump : String → RateLimiter × RateWindow → RateLimiter × RateWindow
bump key (l, item) =
    let item' : RateWindow = record item { count = item.count + 1 } in
    (record l { clients = insert key item' l.clients }, item')

pub allow : ℕ → String → RateLimiter → RateLimiter × Bool
allow now key l =
    let (l', item) = bump key (current_window now key l) in (l', leb item.count l.limit)

pub record_failure : ℕ → String → RateLimiter → RateLimiter
record_failure now key l = (bump key (current_window now key l)).0

pub is_limited : ℕ → String → RateLimiter → Bool
is_limited now key l = elim (lookup key l.clients) [
  | none ↦ false
  | some item ↦ if is_expired l.window now item then false else leb l.limit item.count
]

pub reset : String → RateLimiter → RateLimiter
reset key l = record l { clients = erase key l.clients }

pub size : RateLimiter → ℕ
size l = length l.clients

-- One call of a method, as the handlers make them.
pub data Call : Type 0 where
  allows fails checks resets : String → Call

pub step : RateLimiter → ℕ × Call → RateLimiter
unfolding allow record_failure reset
step l (now, allows key) = (allow now key l).0
step l (now, fails key) = record_failure now key l
step l (now, checks key) = l
step l (now, resets key) = reset key l

pub run : RateLimiter → List (ℕ × Call) → RateLimiter
run l [] = l
run l (c ∷ cs) = run (step l c) cs
