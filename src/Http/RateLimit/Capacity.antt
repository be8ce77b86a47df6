-- ===== src/Http/RateLimit/Capacity.antt =====
-- The limiter's map stays bounded, and holds no key twice.
use classing_backend.Base.{
  ℕ, zero, suc, ◌+◌, ◌-◌, ◌≤◌, ◌<◌, max, ◌≡◌, refl, ◌≢◌, String, Bool, true, false, List, [], ◌∷◌,
  arith, if◌then◌else◌, ◌==◌, string_eq, beq_refl,
}
use classing_backend.Base.Lists.{length}
use classing_backend.Base.Table.{delete_where}
use classing_backend.Base.Dict.{
  contains, erase, Distinct, contains-erase, insert-Distinct, erase-Distinct, length-insert-le,
  length-insert_old, length-erase-le, length-erase_self, contains_of_lookup,
}
use text.Mathlib.TextEquality.{eq_iff}
use classing_backend.Http.RateLimit.{
  RateWindow, RateLimiter, evict_target, sweep_expired, insert_by_age, sort_by_age, erase_first,
  evict_oldest, ensure_capacity, current_window, bump, allow, record_failure, reset, Call, allows,
  fails, checks, resets, step, run, is_expired, current_window_cases, new_rate_limiter_with_cap,
  size,
}

contains-insert_by_age :
    (j : String) (e : String × RateWindow) (d : List (String × RateWindow))
    → contains j (insert_by_age e d) ≡ (if e.0 == j then true else contains j d)
unfolding insert_by_age
contains-insert_by_age j e [] = refl
contains-insert_by_age j e ((i, w) ∷ d) = ground (arith, contains-insert_by_age j e d)

pub contains-sort_by_age :
    (j : String) (d : List (String × RateWindow)) → contains j (sort_by_age d) ≡ contains j d
unfolding sort_by_age
contains-sort_by_age j [] = refl
contains-sort_by_age j (e ∷ d) =
    ground (arith, contains-insert_by_age j e (sort_by_age d), contains-sort_by_age j d)

insert_by_age-Distinct :
    (e : String × RateWindow) (d : List (String × RateWindow))
    → contains e.0 d ≡ false
    → Distinct d
    → Distinct (insert_by_age e d)
unfolding insert_by_age
insert_by_age-Distinct e [] h k = (refl, tt)
insert_by_age-Distinct e ((i, w) ∷ d) h k =
    ground
      (arith, eq_iff i e.0, eq_iff e.0 i, contains-insert_by_age i e d, insert_by_age-Distinct e d)

pub sort_by_age-Distinct : (d : List (String × RateWindow)) → Distinct d → Distinct (sort_by_age d)
unfolding sort_by_age
sort_by_age-Distinct [] h = tt
sort_by_age-Distinct (e ∷ d) h =
    insert_by_age-Distinct e (sort_by_age d) (rw contains-sort_by_age h.0)
      (sort_by_age-Distinct d h.1)

length-insert_by_age :
    (e : String × RateWindow) (d : List (String × RateWindow))
    → length (insert_by_age e d) ≡ suc (length d)
unfolding insert_by_age
length-insert_by_age e [] = refl
length-insert_by_age e (f ∷ d) = ground (arith, length-insert_by_age e d)

length-sort_by_age : (d : List (String × RateWindow)) → length (sort_by_age d) ≡ length d
unfolding sort_by_age
length-sort_by_age [] = refl
length-sort_by_age (e ∷ d) =
    omega (arith, length-insert_by_age e (sort_by_age d), length-sort_by_age d)

delete_where-contains :
    (p : String × RateWindow → Bool) (k : String) (d : List (String × RateWindow))
    → contains k d ≡ false
    → contains k (delete_where p d) ≡ false
delete_where-contains p k [] h = refl
delete_where-contains p k (e ∷ d) h = ground (arith, delete_where-contains p k d)

delete_where-Distinct :
    (p : String × RateWindow → Bool) (d : List (String × RateWindow))
    → Distinct d
    → Distinct (delete_where p d)
delete_where-Distinct p [] h = tt
delete_where-Distinct p (e ∷ d) h =
    ground (arith, delete_where-contains p e.0 d h.0, delete_where-Distinct p d h.1)

erase_first-Distinct :
    (n : ℕ) (es d : List (String × RateWindow)) → Distinct d → Distinct (erase_first n es d)
unfolding erase_first
erase_first-Distinct zero es d h = h
erase_first-Distinct (suc n) [] d h = h
erase_first-Distinct (suc n) ((k, _) ∷ es) d h =
    erase_first-Distinct n es (erase k d) (erase-Distinct k d h)

-- Every key of `es` is one of `d`.
abbrev KeysIn : List (String × RateWindow) → List (String × RateWindow) → Type 0
KeysIn es d = (j : String) → contains j es ≡ true → contains j d ≡ true

KeysIn-erase :
    (k : String) (w : RateWindow) (es d : List (String × RateWindow))
    → contains k es ≡ false
    → KeysIn ((k, w) ∷ es) d
    → KeysIn es (erase k d)
KeysIn-erase k w es d new sub j h = ground (arith, eq_iff k j, contains-erase k j d, sub j)

-- Erasing `n` distinct keys of the map leaves at least `n` entries fewer.
length-erase_first :
    (n : ℕ) (es d : List (String × RateWindow))
    → Distinct es
    → KeysIn es d
    → n ≤ length es
    → length (erase_first n es d) + n ≤ length d
unfolding erase_first
length-erase_first zero es d u sub h = omega arith
length-erase_first (suc n) [] d u sub h = elim h [ ]
length-erase_first (suc n) ((k, w) ∷ es) d u sub h = omega (
  arith,
  length-erase_self k d (sub k (rw beq_refl)),
  length-erase_first n es (erase k d) u.1 (KeysIn-erase k w es d u.0 sub) (omega arith),
)

-- What a limiter with the cap `most` keeps: distinct keys, and a bounded number of them.
pub record Inv (most : ℕ) (l : RateLimiter) : Type 0 where
  pub distinct : Distinct l.clients
  pub room : 1 ≤ most
  pub same_cap : l.max_entries ≡ most
  pub bounded : length l.clients ≤ max most 2

-- There is room for one more key.
record HasRoom (most : ℕ) (l : RateLimiter) : Type 0 where
  distinct : Distinct l.clients
  same_cap : l.max_entries ≡ most
  below : length l.clients < max most 2

length-evict_oldest :
    (l : RateLimiter)
    → Distinct l.clients
    → 1 ≤ l.max_entries
    → length (evict_oldest l).clients ≤ evict_target l.max_entries
unfolding evict_oldest
length-evict_oldest l u r = ground (
  arith,
  length-sort_by_age l.clients,
  length-erase_first (length l.clients - evict_target l.max_entries) (sort_by_age l.clients)
      l.clients (sort_by_age-Distinct l.clients u)
      (λ j h. rw (← contains-sort_by_age j l.clients) h),
)

evict_oldest-HasRoom :
    (l : RateLimiter)
    → Distinct l.clients
    → 1 ≤ l.max_entries
    → HasRoom l.max_entries (evict_oldest l)
evict_oldest-HasRoom l u r = record {
  distinct = distinct;
  same_cap = same_cap;
  below = ground (arith, length-evict_oldest l u r);
}
  where
    distinct : Distinct (evict_oldest l).clients
    distinct =
        unfold evict_oldest in
        ground (
          arith,
          erase_first-Distinct (length l.clients - evict_target l.max_entries)
              (sort_by_age l.clients) l.clients u,
        )

    same_cap : (evict_oldest l).max_entries ≡ l.max_entries
    same_cap = unfold evict_oldest in ground arith

ensure_capacity-HasRoom :
    (now most : ℕ) (l : RateLimiter) → Inv most l → HasRoom most (ensure_capacity now l)
unfolding ensure_capacity sweep_expired
ensure_capacity-HasRoom now most l v = ground (
  arith,
  delete_where-Distinct (λ e. is_expired l.window now e.1) l.clients v.distinct,
  evict_oldest-HasRoom (sweep_expired now l)
      (delete_where-Distinct (λ e. is_expired l.window now e.1) l.clients v.distinct)
      (omega (arith, v.room, v.same_cap)),
)

-- A new key goes into the room that was made for it.
bump_new-Inv :
    (key : String) (most : ℕ) (l : RateLimiter) (item : RateWindow)
    → 1 ≤ most
    → HasRoom most l
    → Inv most (bump key (l, item)).0
bump_new-Inv key most l item r h = ground (
  arith,
  insert-Distinct key (record item { count = item.count + 1 }) l.clients h.distinct,
  length-insert-le key (record item { count = item.count + 1 }) l.clients,
)

-- A key that is there needs no room.
bump_old-Inv :
    (key : String) (most : ℕ) (l : RateLimiter) (item : RateWindow)
    → Inv most l
    → contains key l.clients ≡ true
    → Inv most (bump key (l, item)).0
bump_old-Inv key most l item v h = ground (
  arith,
  insert-Distinct key (record item { count = item.count + 1 }) l.clients v.distinct,
  length-insert_old key (record item { count = item.count + 1 }) l.clients h,
)

bump-current_window-Inv :
    (now : ℕ) (key : String) (most : ℕ) (l : RateLimiter)
    → Inv most l
    → Inv most (bump key (current_window now key l)).0
bump-current_window-Inv now key most l v =
    current_window_cases (λ r. Inv most (bump key r).0) now key l
      (bump_new-Inv key most _ (record { started = now; count = 0 }) v.room
        (ensure_capacity-HasRoom now most l v))
      (λ item e _. bump_old-Inv key most l item v (contains_of_lookup key item l.clients e))

-- Every call of a method keeps the cap, keeps the keys distinct, and keeps at most `most` of them, or
-- two where the cap is 1.
pub step-Inv : (most : ℕ) (l : RateLimiter) (c : ℕ × Call) → Inv most l → Inv most (step l c)
unfolding step allow record_failure reset
step-Inv most l (now, allows key) v = bump-current_window-Inv now key most l v
step-Inv most l (now, fails key) v = bump-current_window-Inv now key most l v
step-Inv most l (now, checks key) v = v
step-Inv most l (now, resets key) v = record {
  distinct = erase-Distinct key l.clients v.distinct;
  room = v.room;
  same_cap = v.same_cap;
  bounded = omega (arith, length-erase-le key l.clients, v.bounded);
}

run-Inv : (most : ℕ) (l : RateLimiter) (cs : List (ℕ × Call)) → Inv most l → Inv most (run l cs)
unfolding run
run-Inv most l [] v = v
run-Inv most l (c ∷ cs) v = run-Inv most (step l c) cs (step-Inv most l c v)

new-Inv :
    (limit window most : ℕ) → 1 ≤ most → Inv most (new_rate_limiter_with_cap limit window most)
unfolding new_rate_limiter_with_cap
new-Inv limit window most h = ground arith

-- After any sequence of calls on a new limiter whose cap is 2 or more, the map holds no more keys
-- than the cap.
pub size-run-le :
    (limit window most : ℕ) (cs : List (ℕ × Call))
    → 2 ≤ most
    → size (run (new_rate_limiter_with_cap limit window most) cs) ≤ most
unfolding size
size-run-le limit window most cs h =
    omega (arith, (run-Inv most _ cs (new-Inv limit window most (omega arith))).bounded)

-- With a cap of 1, a window that is not 0 and two keys that differ, the second key is not made room
-- for: `evictOldest` never goes below one entry, so two keys that ask at one moment leave two
-- entries.
pub size_over_cap_one :
    (limit window now : ℕ) (k j : String)
    → k ≢ j
    → 0 < window
    → size (run (new_rate_limiter_with_cap limit window 1) ((now, allows k) ∷ (now, allows j) ∷ []))
      ≡ 2
unfolding size run step allow new_rate_limiter_with_cap current_window ensure_capacity sweep_expired
    evict_oldest
size_over_cap_one limit window now k j ne w = ground (arith, eq_iff k j, eq_iff j k)
