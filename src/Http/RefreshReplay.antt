-- ===== src/Http/RefreshReplay.antt =====
-- internal/httpapi/refresh_replay.go: calls with one refresh token at one time share one rotation, and
-- for a while its result. The mutex makes each locked part of a method one step. A pointer to an entry
-- is a number, and the heap gives what it points to; the waiting on the channel `done` is `read` of an
-- entry that is completed. The result of `rotate`, which runs without the lock, is an argument.
pub mod Flight
mod Tests
use classing_backend.Base.{
  ℕ, suc, ◌+◌, ◌≡◌, String, Bool, true, false, not, ◌&&◌, Option, none, some, List, [], ◌∷◌, leb,
  if◌then◌else◌, ◌==◌, nat_eq, string_eq,
}
use classing_backend.Base.Table.{delete_where, count_where}
use classing_backend.Base.Dict.{lookup, insert, erase}

pub record RefreshSession : Type 0 where
  pub user_id : String
  pub access_token : String
  pub refresh_token : String
  pub access_expires_at : ℕ
  pub refresh_expires_at : ℕ

pub data ReplayError : Type 0 where
  replay_invalidated : ReplayError
  rotation_failed : String → ReplayError

-- The session and the error of a completed entry.
pub data Outcome : Type 0 where
  issued : RefreshSession → Outcome
  failed : ReplayError → Outcome

-- `key` is that of the call that has made the entry, a local variable of it; `outcome` is none until the
-- entry is completed.
pub record Entry : Type 0 where
  pub key : String
  pub outcome : Option Outcome
  pub invalidated : Bool
  pub expires_at : ℕ

pub record Cache : Type 0 where
  pub ttl : ℕ
  pub next : ℕ
  pub heap : ℕ → Option Entry
  pub entries : List (String × ℕ)

pub new_cache : ℕ → Cache
new_cache ttl = record { ttl = ttl; next = 0; heap = λ _. none; entries = [] }

abbrev pub write : ℕ → Entry → (ℕ → Option Entry) → ℕ → Option Entry
write i e heap j = if i == j then some e else heap j

-- entry.completed && !entry.expiresAt.After(now)
abbrev pub is_stale : ℕ → Option Entry → Bool
is_stale now none = false
is_stale now (some e) = elim e.outcome [ none ↦ false | some _ ↦ leb e.expires_at now ]

abbrev pub sweep : ℕ → Cache → Cache
sweep now c = record c { entries = delete_where (λ e. is_stale now (c.heap e.1)) c.entries }

-- What a call does next: it waits for an entry, or rotates for the one that it has made.
pub data Next : Type 0 where
  waits leads : ℕ → Next

abbrev pub lead : String → Cache → Cache
lead key c = record c {
  next = suc c.next;
  heap =
      write c.next (record { key = key; outcome = none; invalidated = false; expires_at = 0 })
        c.heap;
  entries = insert key c.next c.entries;
}

-- The first locked part of `do`.
pub enter : ℕ → String → Cache → Cache × Next
enter now key c = elim (lookup key (sweep now c).entries) [
  | some i ↦ (sweep now c, waits i)
  | none ↦ (lead key (sweep now c), leads c.next)
]

abbrev pub complete : ℕ → ℕ → Outcome → Entry → Entry
complete now ttl (issued s) e = record e { outcome = some (issued s); expires_at = now + ttl }
complete now ttl (failed err) e = record e { outcome = some (failed err) }

abbrev pub keep_entry : Outcome → String → List (String × ℕ) → List (String × ℕ)
keep_entry (issued s) key entries = entries
keep_entry (failed err) key entries = erase key entries

-- The last locked part of `do`, of the call that has made the entry `e` at `i`.
pub finish : ℕ → ℕ → Entry → Outcome → Cache → Cache
finish now i e outcome c = record c {
  heap = write i (complete now c.ttl outcome e) c.heap;
  entries = keep_entry outcome e.key c.entries;
}

-- What a call that waits gets; none while the entry is not completed.
pub read : ℕ → Cache → Option Outcome
read i c = elim (c.heap i) [
  | none ↦ none
  | some e ↦ elim e.outcome [
    | none ↦ none
    | some o ↦ if e.invalidated then some (failed replay_invalidated) else some o
  ]
]

-- entry.completed && entry.err == nil && entry.session.UserID == userID
abbrev pub is_session_of : String → Option Entry → Bool
is_session_of user none = false
is_session_of user (some e) = elim e.outcome [
  | none ↦ false
  | some (failed _) ↦ false
  | some (issued s) ↦ s.user_id == user
]

abbrev pub invalidate : Entry → Entry
invalidate e = record e { invalidated = true }

abbrev pub mark_listed : String → List (String × ℕ) → (ℕ → Option Entry) → ℕ → Option Entry
mark_listed user entries heap i =
    if is_session_of user (heap i) && leb 1 (count_where (λ e. e.1 == i) entries)
    then (elim (heap i) [ none ↦ none | some e ↦ some (invalidate e) ])
    else heap i

pub invalidate_user : String → Cache → Cache
invalidate_user user c = if user == "" then c else record c {
  heap = mark_listed user c.entries c.heap;
  entries = delete_where (λ e. is_session_of user (c.heap e.1)) c.entries;
}

-- The steps of the calls, in whatever order they take the lock. A call finishes the entry that it has
-- made, once.
pub data Step (c : Cache) : Cache → Type 0 where
  enters : (now : ℕ) (key : String) → Step c (enter now key c).0
  finishes :
      (now i : ℕ) (e : Entry) (outcome : Outcome)
      → c.heap i ≡ some e
      → e.outcome ≡ none
      → Step c (finish now i e outcome c)
  invalidates : (user : String) → Step c (invalidate_user user c)

pub data Reach (c : Cache) : Cache → Type 0 where
  here : Reach c c
  further : {t u : Cache} → Reach c t → Step t u → Reach c u
