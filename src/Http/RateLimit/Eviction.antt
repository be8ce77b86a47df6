-- ===== src/Http/RateLimit/Eviction.antt =====
-- Which keys `evictOldest` drops.
use classing_backend.Base.{
  ℕ, zero, suc, ◌-◌, ◌≤◌, ◌≡◌, refl, String, true, false, none, some, List, [], ◌∷◌, arith,
  if◌then◌else◌, ◌==◌, string_eq,
}
use classing_backend.Base.Lists.{length, take, All}
use classing_backend.Base.Dict.{lookup, contains, erase, Distinct, lookup-erase}
use text.Mathlib.TextEquality.{eq_iff}
use classing_backend.Http.RateLimit.{
  RateWindow, RateLimiter, evict_target, insert_by_age, sort_by_age, erase_first, evict_oldest,
}
use classing_backend.Http.RateLimit.Capacity.{contains-sort_by_age}

-- Each entry is no older than those before it.
abbrev Sorted : List (String × RateWindow) → Type 0
Sorted [] = Unit {0}
Sorted (e ∷ es) = All (λ f. e.1.started ≤ f.1.started) es × Sorted es

insert_by_age-All :
    (n : ℕ) (e : String × RateWindow) (es : List (String × RateWindow))
    → n ≤ e.1.started
    → All (λ f. n ≤ f.1.started) es
    → All (λ f. n ≤ f.1.started) (insert_by_age e es)
unfolding insert_by_age
insert_by_age-All n e [] h k = (h, tt)
insert_by_age-All n e (f ∷ es) h k = ground (arith, insert_by_age-All n e es h k.1)

All-started_trans :
    (m n : ℕ) (es : List (String × RateWindow))
    → m ≤ n
    → All (λ f. n ≤ f.1.started) es
    → All (λ f. m ≤ f.1.started) es
All-started_trans m n [] h k = tt
All-started_trans m n (f ∷ es) h k = (omega arith, All-started_trans m n es h k.1)

insert_by_age-Sorted :
    (e : String × RateWindow) (es : List (String × RateWindow))
    → Sorted es
    → Sorted (insert_by_age e es)
unfolding insert_by_age
insert_by_age-Sorted e [] s = (tt, tt)
insert_by_age-Sorted e (f ∷ es) s = ground (
  arith,
  All-started_trans e.1.started f.1.started es,
  insert_by_age-All f.1.started e es,
  insert_by_age-Sorted e es s.1,
)

sort_by_age-Sorted : (es : List (String × RateWindow)) → Sorted (sort_by_age es)
unfolding sort_by_age
sort_by_age-Sorted [] = tt
sort_by_age-Sorted (e ∷ es) = insert_by_age-Sorted e (sort_by_age es) (sort_by_age-Sorted es)

lookup-insert_by_age :
    (k : String) (e : String × RateWindow) (es : List (String × RateWindow))
    → contains e.0 es ≡ false
    → lookup k (insert_by_age e es) ≡ (if e.0 == k then some e.1 else lookup k es)
unfolding insert_by_age
lookup-insert_by_age k e [] h = refl
lookup-insert_by_age k e (f ∷ es) h =
    ground (arith, eq_iff e.0 k, eq_iff f.0 k, eq_iff f.0 e.0, lookup-insert_by_age k e es)

lookup-sort_by_age :
    (k : String) (es : List (String × RateWindow))
    → Distinct es
    → lookup k (sort_by_age es) ≡ lookup k es
unfolding sort_by_age
lookup-sort_by_age k [] h = refl
lookup-sort_by_age k (e ∷ es) h = rw (
  lookup-insert_by_age k e (sort_by_age es) (rw contains-sort_by_age h.0),
  lookup-sort_by_age k es h.1,
)

All-lookup :
    (n : ℕ) (k : String) (v : RateWindow) (es : List (String × RateWindow))
    → All (λ f. n ≤ f.1.started) es
    → lookup k es ≡ some v
    → n ≤ v.started
All-lookup n k v [] h e = cc
All-lookup n k v (f ∷ es) h e = ground (arith, All-lookup n k v es h.1)

lookup-erase_first :
    (n : ℕ) (k : String) (es d : List (String × RateWindow))
    → lookup k (erase_first n es d) ≡ (if contains k (take n es) then none else lookup k d)
unfolding erase_first
lookup-erase_first zero k es d = refl
lookup-erase_first (suc n) k [] d = refl
lookup-erase_first (suc n) k (e ∷ es) d =
    ground (arith, lookup-erase_first n k es (erase e.0 d), lookup-erase e.0 k d)

-- In a sorted list the first `n` are the oldest.
take_oldest :
    (n : ℕ) (j k : String) (w v : RateWindow) (es : List (String × RateWindow))
    → Sorted es
    → lookup j es ≡ some w
    → lookup k es ≡ some v
    → contains j (take n es) ≡ true
    → contains k (take n es) ≡ false
    → w.started ≤ v.started
take_oldest zero j k w v es s ej ek hj hk = cc
take_oldest (suc n) j k w v [] s ej ek hj hk = cc
take_oldest (suc n) j k w v (e ∷ es) s ej ek hj hk =
    ground (arith, All-lookup e.1.started k v es s.0, take_oldest n j k w v es s.1)

-- Where no key stands twice, eviction goes by age: a key that it keeps is kept with its window as
-- it was, and began no earlier than any key that it drops.
pub evict_oldest_by_age :
    (l : RateLimiter) (j k : String) (w v : RateWindow)
    → Distinct l.clients
    → lookup j l.clients ≡ some w
    → lookup j (evict_oldest l).clients ≡ none
    → lookup k (evict_oldest l).clients ≡ some v
    → (lookup k l.clients ≡ some v) × (w.started ≤ v.started)
unfolding evict_oldest
evict_oldest_by_age l j k w v u ej dropped kept =
    let n = length l.clients - evict_target l.max_entries in
    ground (
      arith,
      lookup-erase_first n j (sort_by_age l.clients) l.clients,
      lookup-erase_first n k (sort_by_age l.clients) l.clients,
      lookup-sort_by_age j l.clients u,
      lookup-sort_by_age k l.clients u,
      take_oldest n j k w v (sort_by_age l.clients) (sort_by_age-Sorted l.clients),
    )
