-- ===== src/Http/RateLimit/Window.antt =====
-- What one window admits to one key, while other keys call too and the map has room for them all.
use classing_backend.Base.{
  ℕ, ◌+◌, ◌-◌, ◌≤◌, ◌<◌, min, ◌≡◌, refl, ◌≢◌, ◌∙◌, ap, String, true, false, some, List, [], ◌∷◌,
  arith, if◌then◌else◌, leb, inl, inr, Bool-cases, ◌==◌, string_eq, eq_of_beq, beq_refl, beq_of_ne,
  ne_of_beq,
}
use classing_backend.Base.Lists.{length, All}
use classing_backend.Base.Dict.{lookup, lookup-insert, lookup-erase, length-insert-le}
use classing_backend.Http.RateLimit.{
  RateWindow, RateLimiter, ensure_capacity, current_window, current_window_cases, bump, allow,
  record_failure, reset, is_limited, is_expired,
}

-- The calls of `allow` that name the key and are let through.
pub admitted : String → RateLimiter → List (ℕ × String) → ℕ
admitted k l [] = 0
admitted k l ((now, j) ∷ cs) =
    (if j == k then (if (allow now j l).1 then 1 else 0) else 0) + admitted k (allow now j l).0 cs

-- The calls of `allow` that name the key.
abbrev pub asked : String → List (ℕ × String) → ℕ
asked k [] = 0
asked k ((_, j) ∷ cs) = (if j == k then 1 else 0) + asked k cs

-- Every call falls into the window of length `window` that begins at `started`.
abbrev pub Within : ℕ → ℕ → List (ℕ × String) → Type 0
Within started window cs = All (λ c. (started ≤ c.0) × (c.0 < started + window)) cs

ensure_capacity-eq_self :
    (now : ℕ) (l : RateLimiter) → length l.clients < l.max_entries → ensure_capacity now l ≡ l
unfolding ensure_capacity
ensure_capacity-eq_self now l h = ground arith

current_window-eq_own :
    (now : ℕ) (k : String) (l : RateLimiter) (w : RateWindow)
    → lookup k l.clients ≡ some w
    → w.started ≤ now
    → now < w.started + l.window
    → current_window now k l ≡ (l, w)
unfolding current_window
current_window-eq_own now k l w e h h' = ground arith

-- What a call for the key `j` leaves of the limiter, for another key `k`.
record Leaves (k : String) (l l' : RateLimiter) : Type 0 where
  same_limit : l'.limit ≡ l.limit
  same_window : l'.window ≡ l.window
  same_cap : l'.max_entries ≡ l.max_entries
  grown : length l'.clients ≤ length l.clients + 1
  same_entry : lookup k l'.clients ≡ lookup k l.clients

bump-Leaves :
    (j k : String) (l : RateLimiter) (item : RateWindow) → j ≢ k → Leaves k l (bump j (l, item)).0
bump-Leaves j k l item ne =
    let item' : RateWindow = record item { count = item.count + 1 } in
    ground (
      arith,
      beq_of_ne j k ne,
      length-insert-le j item' l.clients,
      lookup-insert j k item' l.clients,
    )

allow-Leaves :
    (now : ℕ) (j k : String) (l : RateLimiter)
    → j ≢ k
    → length l.clients < l.max_entries
    → Leaves k l (allow now j l).0
unfolding allow
allow-Leaves now j k l ne h =
    current_window_cases (λ r. Leaves k l (bump j r).0) now j l
      (rw (ensure_capacity-eq_self now l h)
        (bump-Leaves j k l (record { started = now; count = 0 }) ne))
      (λ item _ _. bump-Leaves j k l item ne)

allow_own :
    (now : ℕ) (k : String) (l : RateLimiter) (w : RateWindow)
    → lookup k l.clients ≡ some w
    → w.started ≤ now
    → now < w.started + l.window
    → allow now k l ≡ (let (l', item) = bump k (l, w) in (l', leb item.count l.limit))
unfolding allow
allow_own now k l w e h h' = rw (current_window-eq_own now k l w e h h')

-- One more call takes one from what the limit leaves, if anything is left.
count_one :
    (limit count a : ℕ)
    → (if leb (count + 1) limit then 1 else 0) + min a (limit - (count + 1))
      ≡ min (1 + a) (limit - count)
count_one limit count a = ground arith

lookup-bump_self :
    (k : String) (l : RateLimiter) (w : RateWindow)
    → lookup k (bump k (l, w)).0.clients ≡ some (record w { count = w.count + 1 })
lookup-bump_self k l w =
    rw (lookup-insert k k (record w { count = w.count + 1 }) l.clients, beq_refl)

admitted_own :
    (now : ℕ) (k : String) (cs : List (ℕ × String)) (l : RateLimiter) (w : RateWindow)
    → lookup k l.clients ≡ some w
    → w.started ≤ now
    → now < w.started + l.window
    → admitted k l ((now, k) ∷ cs)
      ≡ (if leb (w.count + 1) l.limit then 1 else 0) + admitted k (bump k (l, w)).0 cs
unfolding admitted
admitted_own now k cs l w e h h' = rw (beq_refl k, allow_own now k l w e h h')

admitted_other :
    (now : ℕ) (j k : String) (cs : List (ℕ × String)) (l : RateLimiter)
    → (j == k) ≡ false
    → admitted k l ((now, j) ∷ cs) ≡ admitted k (allow now j l).0 cs
unfolding admitted
admitted_other now j k cs l h = ground arith

-- In the window that the entry `w` of a key began, while the map keeps room for a new key at every
-- call, exactly as many of the key's calls are let through as the limit leaves: as many as ask, up
-- to the limit less those counted before.
pub admitted-eq :
    (k : String) (cs : List (ℕ × String)) (l : RateLimiter) (w : RateWindow)
    → lookup k l.clients ≡ some w
    → Within w.started l.window cs
    → length l.clients + length cs ≤ l.max_entries
    → admitted k l cs ≡ min (asked k cs) (l.limit - w.count)
admitted-eq k [] l w e within room = unfold admitted in omega arith
admitted-eq k ((now, j) ∷ cs) l w e within room = elim (Bool-cases (j == k)) [
  | inl same ↦
      let same' = eq_of_beq j k same in
      rw (same', beq_refl k, admitted_own now k cs l w e within.0.0 within.0.1)
        (rw
          (admitted-eq k cs (bump k (l, w)).0 (record w { count = w.count + 1 })
            (lookup-bump_self k l w) within.1
            (omega (arith, length-insert-le k (record w { count = w.count + 1 }) l.clients)))
          (count_one l.limit w.count (asked k cs)))
  | inr other ↦
      let left = allow-Leaves now j k l (ne_of_beq j k other) (omega arith) in
      rw (other, admitted_other now j k cs l other)
        (rw
          (admitted-eq k cs (allow now j l).0 w (left.same_entry ∙ e) (rw left.same_window within.1)
            (omega (arith, left.grown, left.same_cap)))
          (rw left.same_limit (omega arith)))
]

-- A key that is new, or whose window has run out, is let through exactly if the limit is at least 1,
-- and begins a new window at this call, with a count of 1.
pub allow_fresh :
    (now : ℕ) (k : String) (l : RateLimiter)
    → ((w : RateWindow) → lookup k l.clients ≡ some w → is_expired l.window now w ≡ true)
    → ((allow now k l).1 ≡ leb 1 l.limit)
      × (lookup k (allow now k l).0.clients ≡ some (record { started = now; count = 1 }))
unfolding allow
allow_fresh now k l h =
    current_window_cases
      (λ r.
        (leb (bump k r).1.count l.limit ≡ leb 1 l.limit)
        × (lookup k (bump k r).0.clients ≡ some (record { started = now; count = 1 })))
      now k l
      (
        refl,
        rw (
          lookup-insert k k (record { started = now; count = 1 }) (ensure_capacity now l).clients,
          beq_refl,
        ),
      )
      (λ item e x. absurd (cc (h item e, x)))

-- A run of failed logins for one key.
pub failures : String → RateLimiter → List ℕ → RateLimiter
failures k l [] = l
failures k l (now ∷ ts) = failures k (record_failure now k l) ts

fail_own :
    (now : ℕ) (k : String) (l : RateLimiter) (w : RateWindow)
    → lookup k l.clients ≡ some w
    → w.started ≤ now
    → now < w.started + l.window
    → record_failure now k l ≡ (bump k (l, w)).0
unfolding record_failure
fail_own now k l w e h h' = rw (current_window-eq_own now k l w e h h')

is_limited_own :
    (now : ℕ) (k : String) (l : RateLimiter) (w : RateWindow)
    → lookup k l.clients ≡ some w
    → w.started ≤ now
    → now < w.started + l.window
    → is_limited now k l ≡ leb l.limit w.count
unfolding is_limited
is_limited_own now k l w e h h' = ground arith

is_limited-reset : (now : ℕ) (k : String) (l : RateLimiter) → is_limited now k (reset k l) ≡ false
unfolding is_limited reset
is_limited-reset now k l = ground (arith, lookup-erase k k l.clients, beq_refl k)

is_limited-failures :
    (k : String) (ts : List ℕ) (now : ℕ) (l : RateLimiter) (w : RateWindow)
    → lookup k l.clients ≡ some w
    → All (λ t. (w.started ≤ t) × (t < w.started + l.window)) ts
    → w.started ≤ now
    → now < w.started + l.window
    → is_limited now k (failures k l ts) ≡ leb l.limit (w.count + length ts)
unfolding failures
is_limited-failures k [] now l w e within h h' =
    is_limited_own now k l w e h h' ∙ ap (leb l.limit) (omega arith)
is_limited-failures k (t ∷ ts) now l w e within h h' =
    rw (fail_own t k l w e within.0.0 within.0.1) (
      is_limited-failures k ts now (bump k (l, w)).0 (record w { count = w.count + 1 })
        (lookup-bump_self k l w) within.1 h h'
      ∙ ap (leb l.limit) (omega arith))

-- In the window that the entry `w` of a key began, after a run of failures the key is locked exactly
-- when the failures counted before and those of the run together reach the limit, and a `reset` after
-- the run unlocks it.
pub failures_lock :
    (k : String) (ts : List ℕ) (now : ℕ) (l : RateLimiter) (w : RateWindow)
    → lookup k l.clients ≡ some w
    → All (λ t. (w.started ≤ t) × (t < w.started + l.window)) ts
    → w.started ≤ now
    → now < w.started + l.window
    → (is_limited now k (failures k l ts) ≡ leb l.limit (w.count + length ts))
      × (is_limited now k (reset k (failures k l ts)) ≡ false)
failures_lock k ts now l w e within h h' =
    (is_limited-failures k ts now l w e within h h', is_limited-reset now k (failures k l ts))
