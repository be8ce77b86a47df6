-- ===== src/Store/Challenges.antt =====
-- internal/store/users.go: the codes that verify an e-mail address, and the requests to change it.
pub mod Attempts
pub mod Revocation
pub mod Newest
mod Tests
use classing_backend.Base.{
  ℕ, ◌-◌, ◌+◌, ◌*◌, max, String, Bool, true, false, not, ◌&&◌, ◌||◌, Option, none, some, List, [],
  ◌∷◌, ◌++◌, leb, ltb, if◌then◌else◌, ◌==◌, nat_eq, string_eq,
}
use classing_backend.Base.Table.{select_one, select_where, count_where, update_where, delete_where}
use classing_backend.Base.Text.{trim_space, to_lower}
use classing_backend.Store.Core.{
  Error, not_found, conflict, forbidden, unavailable, duplicate_key, no_rows, normalize_db_error,
  Result, ok, err, Action, pure, fail, gets, or_fail, ◌>>=◌, ◌>>◌, fail_if, modify, transaction,
  commit, commit_and_fail, insert_row,
}
use classing_backend.Store.Rows.{
  User, EmailChallenge, EmailChange, ResetToken, Tables, status_active, status_pending,
}
use classing_backend.Store.Accounts.{set_password}
use classing_backend.Store.Sessions.{revoke_all}

abbrev pub max_verification_attempts : ℕ
max_verification_attempts = 10

-- The columns of a table that the count of its failed attempts needs.
pub record ChallengeTable (A : Type 0) : Type 0 where
  pub row_id : A → String
  pub set_failed_attempts : ℕ → A → A
  pub set_used_at : ℕ → A → A

abbrev pub email_challenge_table : ChallengeTable EmailChallenge
email_challenge_table = record {
  row_id = λ c. c.id;
  set_failed_attempts = λ n c. record c { failed_attempts = n };
  set_used_at = λ n c. record c { used_at = n };
}

abbrev pub email_change_table : ChallengeTable EmailChange
email_change_table = record {
  row_id = λ c. c.id;
  set_failed_attempts = λ n c. record c { failed_attempts = n };
  set_used_at = λ n c. record c { used_at = n };
}

-- One more failure; the last one that is allowed locks the row.
abbrev pub record_failed_attempt :
    {A : Type 0} → ChallengeTable A → String → ℕ → ℕ → List A → List A
record_failed_attempt table row_id failures now =
    let attempts = failures + 1 in
    update_where (λ c. table.row_id c == row_id)
      (λ c.
        if leb max_verification_attempts attempts
        then table.set_used_at now (table.set_failed_attempts attempts c)
        else table.set_failed_attempts attempts c)

-- SELECT COALESCE(MAX(created_at), 0)
abbrev pub latest : {A : Type 0} → (A → ℕ) → List A → ℕ
latest created [] = 0
latest created (r ∷ rs) = max (created r) (latest created rs)

abbrev pub too_soon : ℕ → ℕ → Bool
too_soon now last = ltb 0 last && ltb (now - last) 60000

-- UPDATE email_verification_challenges SET used_at WHERE user_id AND used_at = 0
abbrev pub use_open_challenges : ℕ → String → Tables → Tables
use_open_challenges now user d = record d {
  email_challenges =
      update_where (λ c. c.user_id == user && c.used_at == 0) (λ c. record c { used_at = now })
        d.email_challenges;
}

-- INSERT INTO email_verification_challenges
add_challenge : EmailChallenge → Action Tables (Unit {0})
add_challenge row d = elim (insert_row (λ c. c.id == row.id) row d.email_challenges) [
  | none ↦ fail (normalize_db_error duplicate_key) d
  | some rows ↦ (ok tt, record d { email_challenges = rows })
]

pub create_email_verification_challenge :
    ℕ → String → String → String → ℕ → String → String → Action Tables String
unfolding add_challenge
create_email_verification_challenge now id user code_hash expires_at ip ua = transaction do
  last ←
      gets
        (λ d. latest (λ c. c.created_at) (select_where (λ c. c.user_id == user) d.email_challenges))
  fail_if (too_soon now last) unavailable
  modify (use_open_challenges now user)
  add_challenge (record {
    id = id;
    user_id = user;
    code_hash = code_hash;
    expires_at = expires_at;
    used_at = 0;
    request_ip = ip;
    request_ua = ua;
    created_at = now;
    failed_attempts = 0;
  })
  commit id

pub cancel_email_verification_challenge : ℕ → String → Action Tables (Unit {0})
cancel_email_verification_challenge now id = modify λ d. record d {
  email_challenges =
      update_where (λ c. c.id == id && c.used_at == 0) (λ c. record c { used_at = now })
        d.email_challenges;
}

-- A row that takes no attempt: it is used or locked, has run out, or has too many failures.
abbrev pub is_closed : ℕ → ℕ → ℕ → ℕ → Bool
is_closed now used_at expires_at failures =
    not (used_at == 0) || leb expires_at now || leb max_verification_attempts failures

-- UPDATE users SET status = ACTIVE, email_verified = 1 WHERE id AND status = PENDING
abbrev pub activate : ℕ → String → Tables → Tables
activate now user d = record d {
  users =
      update_where (λ u. u.id == user && u.status == status_pending)
        (λ u. record u { status = status_active; email_verified = 1; updated_at = now }) d.users;
}

abbrev pub find_challenge : String → Tables → Option EmailChallenge
find_challenge id d = select_one (λ c. c.id == id) d.email_challenges

-- The right code.
accept_challenge : ℕ → EmailChallenge → Action Tables (Result User)
accept_challenge now row = do
  affected ← gets (λ d. count_where (λ c. c.id == row.id && c.used_at == 0) d.email_challenges)
  modify λ d. record d {
    email_challenges =
        update_where (λ c. c.id == row.id && c.used_at == 0) (λ c. record c { used_at = now })
          d.email_challenges;
  }
  fail_if (not (affected == 1)) forbidden
  modify (activate now row.user_id)
  found ← gets (λ d. select_one (λ u. u.id == row.user_id) d.users)
  user ← or_fail found (normalize_db_error no_rows)
  commit user

pub consume_email_verification_challenge : ℕ → String → String → Action Tables User
unfolding accept_challenge
consume_email_verification_challenge now id code_hash = transaction do
  found ← gets (find_challenge id)
  row ← or_fail found (normalize_db_error no_rows)
  fail_if (is_closed now row.used_at row.expires_at row.failed_attempts) forbidden
  if row.code_hash == code_hash then accept_challenge now row else do
    modify λ d. record d {
      email_challenges =
          record_failed_attempt email_challenge_table row.id row.failed_attempts now
            d.email_challenges;
    }
    commit_and_fail forbidden

-- INSERT INTO email_change_requests
add_change : EmailChange → Action Tables (Unit {0})
add_change row d = elim (insert_row (λ c. c.id == row.id) row d.email_changes) [
  | none ↦ fail (normalize_db_error duplicate_key) d
  | some rows ↦ (ok tt, record d { email_changes = rows })
]

pub create_email_change_request :
    ℕ → String → String → String → String → ℕ → String → String → Action Tables String
unfolding add_change
create_email_change_request now id user new_email code_hash expires_at ip ua = transaction do
  last ←
      gets (λ d. latest (λ c. c.created_at) (select_where (λ c. c.user_id == user) d.email_changes))
  fail_if (too_soon now last) unavailable
  modify λ d. record d {
    email_changes =
        update_where (λ c. c.user_id == user && c.used_at == 0) (λ c. record c { used_at = now })
          d.email_changes;
  }
  add_change (record {
    id = id;
    user_id = user;
    new_email = to_lower (trim_space new_email);
    code_hash = code_hash;
    expires_at = expires_at;
    used_at = 0;
    request_ip = ip;
    request_ua = ua;
    created_at = now;
    failed_attempts = 0;
  })
  commit id

abbrev pub find_change : String → Tables → Option EmailChange
find_change id d = select_one (λ c. c.id == id) d.email_changes

-- UPDATE users SET email, email_verified = 1, auth_epoch WHERE id
abbrev pub set_email : ℕ → String → String → Tables → Tables
set_email now user email d = record d {
  users =
      update_where (λ u. u.id == user)
        (λ u. record u { email = email; email_verified = 1; auth_epoch = now; updated_at = now })
        d.users;
}

-- Another account has the address, and this one exists.
abbrev pub email_taken : String → String → List User → Bool
email_taken user email users =
    ltb 0 (count_where (λ u. u.id == user) users)
    && ltb 0 (count_where (λ u. u.email == email && not (u.id == user)) users)

accept_change : ℕ → EmailChange → Action Tables (Result User)
accept_change now row = do
  affected ← gets (λ d. count_where (λ c. c.id == row.id && c.used_at == 0) d.email_changes)
  modify λ d. record d {
    email_changes =
        update_where (λ c. c.id == row.id && c.used_at == 0) (λ c. record c { used_at = now })
          d.email_changes;
  }
  fail_if (not (affected == 1)) forbidden
  taken ← gets (λ d. email_taken row.user_id row.new_email d.users)
  fail_if taken (normalize_db_error duplicate_key)
  modify (set_email now row.user_id row.new_email)
  modify (revoke_all now row.user_id)
  found ← gets (λ d. select_one (λ u. u.id == row.user_id) d.users)
  user ← or_fail found (normalize_db_error no_rows)
  commit user

pub consume_email_change_request : ℕ → String → String → Action Tables User
unfolding accept_change
consume_email_change_request now id code_hash = transaction do
  found ← gets (find_change id)
  row ← or_fail found (normalize_db_error no_rows)
  fail_if (is_closed now row.used_at row.expires_at row.failed_attempts) forbidden
  if row.code_hash == code_hash then accept_change now row else do
    modify λ d. record d {
      email_changes =
          record_failed_attempt email_change_table row.id row.failed_attempts now d.email_changes;
    }
    commit_and_fail forbidden

-- ORDER BY created_at DESC LIMIT 1
abbrev pub newest_change : List EmailChange → Option EmailChange
newest_change [] = none
newest_change (c ∷ cs) = elim (newest_change cs) [
  | none ↦ some c
  | some best ↦ if ltb c.created_at best.created_at then some best else some c
]

pub pending_email_change : ℕ → String → Action Tables (String × ℕ)
pending_email_change now user = do
  found ← gets λ d. newest_change (
      select_where (λ c. c.user_id == user && c.used_at == 0 && ltb now c.expires_at)
        d.email_changes)
  row ← or_fail found (normalize_db_error no_rows)
  pure (row.new_email, row.expires_at)
