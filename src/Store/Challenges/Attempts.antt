-- ===== src/Store/Challenges/Attempts.antt =====
-- How often a code of internal/store/users.go can be guessed.
use classing_backend.Base.{
  ℕ, ◌<◌, ◌+◌, ◌≤◌, ◌≡◌, refl, ◌≢◌, ◌⊎◌, String, true, false, some, List, [], ◌∷◌, arith, leb,
  if◌then◌else◌, ◌==◌, nat_eq, string_eq, inl, inr, Bool-cases,
}
use classing_backend.Base.Lists.{All, length}
use text.Mathlib.TextEquality.{eq_iff}
use classing_backend.Base.Table.{select_one, select_one-update_where}
use classing_backend.Store.Core.{forbidden, err}
use classing_backend.Store.Rows.{EmailChallenge, Tables}
use classing_backend.Store.Challenges.{
  max_verification_attempts, email_challenge_table, record_failed_attempt, is_closed,
  find_challenge, consume_email_verification_challenge,
}

-- The attempts on one challenge, in their order: when, and with which code.
abbrev pub attempts : String → List (ℕ × String) → Tables → Tables
attempts id [] d = d
attempts id ((now, code) ∷ rest) d =
    attempts id rest (consume_email_verification_challenge now id code d).1

-- A row that has taken so many failures, or takes no attempt any more at a time that is not earlier.
abbrev Spent : ℕ → ℕ → EmailChallenge → Type 0
Spent later n row =
    (row.used_at ≢ 0)
    ⊎ (row.expires_at ≤ later)
    ⊎ (n ≤ row.failed_attempts)
    ⊎ (10 ≤ row.failed_attempts)

closed-fails :
    (now : ℕ) (id code : String) (d : Tables) (row : EmailChallenge)
    → find_challenge id d ≡ some row
    → is_closed now row.used_at row.expires_at row.failed_attempts ≡ true
    → consume_email_verification_challenge now id code d ≡ (err forbidden, d)
unfolding consume_email_verification_challenge
closed-fails now id code d row e c = ground arith

-- The row after one more failure.
abbrev failed_row : ℕ → EmailChallenge → EmailChallenge
failed_row now row =
    if leb max_verification_attempts (row.failed_attempts + 1)
    then record row { failed_attempts = row.failed_attempts + 1; used_at = now }
    else record row { failed_attempts = row.failed_attempts + 1 }

find-failed :
    (now : ℕ) (id : String) (row : EmailChallenge) (rows : List EmailChallenge)
    → select_one (λ c. c.id == id) rows ≡ some row
    → select_one
        (λ c. c.id == id)
        (record_failed_attempt email_challenge_table row.id row.failed_attempts now rows)
      ≡ some (failed_row now row)
find-failed now id row rows e =
    rw
      (
        select_one-update_where (λ c. c.id == id) (λ c. c.id == row.id)
            (λ c.
              if leb max_verification_attempts (row.failed_attempts + 1)
              then record c { failed_attempts = row.failed_attempts + 1; used_at = now }
              else record c { failed_attempts = row.failed_attempts + 1 })
            rows (λ c. ground arith),
        e,
      )
      (ground (arith, eq_iff row.id row.id))

-- A wrong code at an open challenge counts.
wrong-counts :
    (now : ℕ) (id code : String) (d : Tables) (row : EmailChallenge)
    → find_challenge id d ≡ some row
    → is_closed now row.used_at row.expires_at row.failed_attempts ≡ false
    → code ≢ row.code_hash
    → find_challenge id (consume_email_verification_challenge now id code d).1
      ≡ some (failed_row now row)
unfolding consume_email_verification_challenge
wrong-counts now id code d row e c ne =
    ground (arith, find-failed now id row d.email_challenges e, eq_iff row.code_hash code)

wrong-Spent :
    (now later n : ℕ) (id code : String) (d : Tables) (row : EmailChallenge)
    → 0 < now
    → now ≤ later
    → find_challenge id d ≡ some row
    → code ≢ row.code_hash
    → Spent later n row
    → (row' : EmailChallenge) × (find_challenge id
          (consume_email_verification_challenge now id code d).1
        ≡ some row')
      × (row'.code_hash ≡ row.code_hash)
      × Spent later (n + 1) row'
wrong-Spent now later n id code d row pos le e ne spent =
    elim (Bool-cases (is_closed now row.used_at row.expires_at row.failed_attempts)) [
      | inl c ↦ (row, rw (closed-fails now id code d row e c) e, refl, ground arith)
      | inr c ↦
          (failed_row now row, wrong-counts now id code d row e c ne, ground arith, ground arith)
    ]

attempts-Spent :
    (later n : ℕ) (id : String) (tries : List (ℕ × String)) (d : Tables) (row : EmailChallenge)
    → find_challenge id d ≡ some row
    → All (λ t. (0 < t.0) × (t.0 ≤ later) × (t.1 ≢ row.code_hash)) tries
    → Spent later n row
    → (row' : EmailChallenge) × (find_challenge id (attempts id tries d) ≡ some row')
      × Spent later (length tries + n) row'
attempts-Spent later n id [] d row e w spent = (row, e, ground (arith, spent))
attempts-Spent later n id ((now, code) ∷ rest) d row e (w, ws) spent =
    let next = wrong-Spent now later n id code d row w.0 w.1 e w.2 spent in
    let done =
      attempts-Spent later (n + 1) id rest (consume_email_verification_challenge now id code d).1
        next.0 next.1 (rw next.2 ws) next.3 in
    (done.0, done.1, ground (arith, done.2))

-- After ten attempts with a wrong code, or more, none of them at the time 0, a verification code is
-- refused, also the right one, at each time that is not before the attempts.
pub guesses_run_out :
    (later : ℕ) (id code : String) (tries : List (ℕ × String)) (d : Tables) (row : EmailChallenge)
    → find_challenge id d ≡ some row
    → All (λ t. (0 < t.0) × (t.0 ≤ later) × (t.1 ≢ row.code_hash)) tries
    → max_verification_attempts ≤ length tries
    → consume_email_verification_challenge later id code (attempts id tries d)
      ≡ (err forbidden, attempts id tries d)
guesses_run_out later id code tries d row e w ten =
    let done = attempts-Spent later 0 id tries d row e w (inr (inr (inl (omega arith)))) in
    closed-fails later id code (attempts id tries d) done.0 done.1 (ground (arith, done.2))
