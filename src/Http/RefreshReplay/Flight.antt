-- ===== src/Http/RefreshReplay/Flight.antt =====
-- One rotation at a time for a key, and what is replayed, internal/httpapi/refresh_replay.go.
use classing_backend.Base.{
  ℕ, ◌+◌, ◌<◌, ◌≤◌, ◌≡◌, ◌≢◌, refl, sym, ap, ◌∙◌, String, Bool, true, false, Option, none, some,
  List, [], ◌∷◌, ◌==◌, nat_eq, string_eq, arith, inl, inr, Bool-cases, Option-cases, beq_refl,
}
use text.Mathlib.TextEquality.{eq_iff}
use classing_backend.Base.Table.{delete_where}
use classing_backend.Base.Dict.{lookup, lookup-insert, lookup-erase}
use classing_backend.Http.RefreshReplay.{
  RefreshSession, Outcome, issued, failed, Entry, Cache, new_cache, is_stale, sweep, waits, lead,
  enter, finish, read, is_session_of, mark_listed, invalidate_user, Step, enters, finishes,
  invalidates, Reach, here, further,
}

-- An entry that is not deleted is still found.
lookup-delete_where :
    (p : ℕ → Bool) (k : String) (i : ℕ) (d : List (String × ℕ))
    → lookup k d ≡ some i
    → p i ≡ false
    → lookup k (delete_where (λ e. p e.1) d) ≡ some i
lookup-delete_where p k i [] h n = cc
lookup-delete_where p k i ((j, v) ∷ d) h n = ground (arith, lookup-delete_where p k i d)

-- What is found after the deletions, and after others, does not pass the test.
lookup-delete_twice :
    (p q : ℕ → Bool) (k : String) (i : ℕ) (d : List (String × ℕ))
    → lookup k (delete_where (λ e. q e.1) (delete_where (λ e. p e.1) d)) ≡ some i
    → p i ≡ false
lookup-delete_twice p q k i [] h = cc
lookup-delete_twice p q k i ((j, v) ∷ d) h = ground (arith, lookup-delete_twice p q k i d)

-- An entry that is not completed is the one of its key.
pub record Inv (c : Cache) : Type 0 where
  pub unused : (i : ℕ) → c.next ≤ i → c.heap i ≡ none
  pub flying :
      (i : ℕ) (e : Entry) → c.heap i ≡ some e → e.outcome ≡ none → lookup e.key c.entries ≡ some i

sweep-Inv : (now : ℕ) (c : Cache) → Inv c → Inv (sweep now c)
sweep-Inv now c v = record {
  unused = v.unused;
  flying = λ i e h o.
      lookup-delete_where (λ i. is_stale now (c.heap i)) e.key i c.entries (v.flying i e h o)
        (ground arith);
}

lead-Inv : (key : String) (c : Cache) → lookup key c.entries ≡ none → Inv c → Inv (lead key c)
lead-Inv key c free v = record {
  unused = λ i le. ground (arith, v.unused i);
  flying = λ i e h o. elim (Bool-cases (c.next == i)) [
    | inl new ↦
        rw (lookup-insert key e.key c.next c.entries)
          (ground (arith, eq_iff key e.key, beq_refl key))
    | inr old ↦
        rw (lookup-insert key e.key c.next c.entries)
          (ground (arith, v.flying i e, eq_iff key e.key))
  ];
}

enter-Inv : (now : ℕ) (key : String) (c : Cache) → Inv c → Inv (enter now key c).0
unfolding enter
enter-Inv now key c v = elim (Option-cases (lookup key (sweep now c).entries)) [
  | inl e ↦ rw (e, enter) (lead-Inv key (sweep now c) e (sweep-Inv now c v))
  | inr (i, e) ↦ rw (e, enter) (sweep-Inv now c v)
]

finish-Inv :
    (now i : ℕ) (e : Entry) (outcome : Outcome) (c : Cache)
    → c.heap i ≡ some e
    → e.outcome ≡ none
    → Inv c
    → Inv (finish now i e outcome c)
unfolding finish
finish-Inv now i e (issued s) c h o v = record {
  unused = λ j le. ground (arith, v.unused j);
  flying = λ j f g q. ground (arith, v.flying j f);
}
finish-Inv now i e (failed err) c h o v = record {
  unused = λ j le. ground (arith, v.unused j);
  flying = λ j f g q.
      rw (lookup-erase e.key f.key c.entries)
        (ground (arith, v.flying j f, v.flying i e, eq_iff e.key f.key));
}

mark_listed-none :
    (user : String) (entries : List (String × ℕ)) (heap : ℕ → Option Entry) (i : ℕ)
    → heap i ≡ none
    → mark_listed user entries heap i ≡ none
mark_listed-none user entries heap i e = ground arith

mark_listed-flying :
    (user : String) (entries : List (String × ℕ)) (heap : ℕ → Option Entry) (i : ℕ) (e : Entry)
    → mark_listed user entries heap i ≡ some e
    → e.outcome ≡ none
    → heap i ≡ some e
mark_listed-flying user entries heap i e h o = elim (Option-cases (heap i)) [
  | inl k ↦ absurd (ground arith)
  | inr (f, k) ↦ elim (Bool-cases (is_session_of user (heap i))) [
    | inl is ↦ absurd (ground arith)
    | inr isnt ↦ ground arith
  ]
]

invalidate_user-Inv : (user : String) (c : Cache) → Inv c → Inv (invalidate_user user c)
unfolding invalidate_user
invalidate_user-Inv user c v = elim (Bool-cases (user == "")) [
  | inl e ↦ rw (e, invalidate_user) v
  | inr e ↦
      rw (e, invalidate_user)
        (record {
          unused = λ i le. mark_listed-none user c.entries c.heap i (v.unused i le);
          flying = λ i f h o.
              let was = mark_listed-flying user c.entries c.heap i f h o in
              lookup-delete_where (λ i. is_session_of user (c.heap i)) f.key i c.entries
                (v.flying i f was o) (ground arith);
        })
]

Step-Inv : {c t : Cache} → Step c t → Inv c → Inv t
Step-Inv {c} (enters now key) v = enter-Inv now key c v
Step-Inv {c} (finishes now i e outcome h o) v = finish-Inv now i e outcome c h o v
Step-Inv {c} (invalidates user) v = invalidate_user-Inv user c v

Reach-Inv : {c t : Cache} → Reach c t → Inv c → Inv t
Reach-Inv here v = v
Reach-Inv (further r s) v = Step-Inv s (Reach-Inv r v)

new-Inv : (ttl : ℕ) → Inv (new_cache ttl)
unfolding new_cache
new-Inv ttl = record { unused = λ i le. refl; flying = λ i e h o. absurd (ground arith) }

-- At most one rotation runs for a key: in each state that a new cache comes to, by whatever calls in
-- whatever order, two entries of one key that are both not completed are the same entry.
pub single_flight :
    (ttl : ℕ) (c : Cache) (i j : ℕ) (e f : Entry)
    → Reach (new_cache ttl) c
    → c.heap i ≡ some e
    → c.heap j ≡ some f
    → e.outcome ≡ none
    → f.outcome ≡ none
    → e.key ≡ f.key
    → i ≡ j
single_flight ttl c i j e f r h k o q same =
    let v = Reach-Inv r (new-Inv ttl) in
    ap (λ r. elim r [ none ↦ i | some n ↦ n ])
      (sym (v.flying i e h o) ∙ ap (λ k. lookup k c.entries) same ∙ v.flying j f k q)

-- In each state that a new cache comes to: once the rotation of an entry succeeds that was not
-- completed and not invalidated, a call with its key and before the end of `ttl` waits for that
-- entry, and gets the session from it.
pub finish_replays :
    (ttl now later i : ℕ) (e : Entry) (s : RefreshSession) (c : Cache)
    → Reach (new_cache ttl) c
    → c.heap i ≡ some e
    → e.outcome ≡ none
    → e.invalidated ≡ false
    → later < now + c.ttl
    → let again = enter later e.key (finish now i e (issued s) c) in
      (again.1 ≡ waits i) × (read i again.0 ≡ some (issued s))
unfolding enter finish read
finish_replays ttl now later i e s c r h o fresh soon =
    let v = Reach-Inv r (new-Inv ttl) in
    let done = finish now i e (issued s) c in
    let found =
      lookup-delete_where (λ j. is_stale later (done.heap j)) e.key i c.entries (v.flying i e h o)
        (ground arith) in
    (ground arith, ground arith)

invalidate_user-named :
    (user : String) (c : Cache)
    → user ≢ ""
    → ((invalidate_user user c).heap ≡ mark_listed user c.entries c.heap)
      × ((invalidate_user user c).entries
          ≡ delete_where (λ e. is_session_of user (c.heap e.1)) c.entries)
unfolding invalidate_user
invalidate_user-named user c named =
    (ground (arith, eq_iff user ""), ground (arith, eq_iff user ""))

read-issued :
    (i : ℕ) (c : Cache) (s : RefreshSession)
    → read i c ≡ some (issued s)
    → is_session_of s.user_id (c.heap i) ≡ true
unfolding read
read-issued i c s h = elim (Option-cases (c.heap i)) [
  | inl e ↦ absurd (ground arith)
  | inr (e, k) ↦ elim (Option-cases e.outcome) [
    | inl q ↦ absurd (ground arith)
    | inr (failed err, q) ↦ absurd (ground arith)
    | inr (issued t, q) ↦ ground (arith, eq_iff t.user_id s.user_id)
  ]
]

enter-heap :
    (now : ℕ) (key : String) (c : Cache) (i : ℕ)
    → lookup key (sweep now c).entries ≡ some i
    → (enter now key c).0 ≡ sweep now c
unfolding enter
enter-heap now key c i found = rw (found, enter) refl

-- Right after the sessions of a user, whose id is not empty, are invalidated, a call that waits for
-- an entry waits for none that holds a session of the user: what it reads at once is no session of
-- that user.
pub invalidate_user-read :
    (user key : String) (now i : ℕ) (c : Cache) (s : RefreshSession)
    → user ≢ ""
    → (enter now key (invalidate_user user c)).1 ≡ waits i
    → s.user_id ≡ user
    → read i (enter now key (invalidate_user user c)).0 ≢ some (issued s)
unfolding enter
invalidate_user-read user key now i c s named next of got =
    let c' = invalidate_user user c in
    let shape = invalidate_user-named user c named in
    let found : lookup key (sweep now c').entries ≡ some i = ground arith in
    let none_of =
      lookup-delete_twice (λ j. is_session_of user (c.heap j)) (λ j. is_stale now (c'.heap j)) key i
        c.entries
        (ap (λ es. lookup key (delete_where (λ e. is_stale now (c'.heap e.1)) es)) (sym shape.1)
          ∙ found) in
    let heap : c'.heap i ≡ c.heap i = ap (λ h. h i) shape.0 ∙ ground arith in
    let is =
      read-issued i (sweep now c') s (ap (read i) (sym (enter-heap now key c' i found)) ∙ got) in
    ground (arith, ap (is_session_of user) heap, ap (λ u. is_session_of u (c'.heap i)) of)
