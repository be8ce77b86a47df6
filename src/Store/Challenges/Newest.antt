-- ===== src/Store/Challenges/Newest.antt =====
-- Sending a new code, internal/store/users.go.
use classing_backend.Base.{
  ℕ, ◌<◌, ◌+◌, ◌≤◌, ◌≡◌, refl, String, Bool, true, ◌&&◌, List, [], ◌∷◌, ◌++◌, arith, ◌==◌, nat_eq,
  string_eq,
}
use text.Mathlib.TextEquality.{eq_iff}
use classing_backend.Base.Table.{
  select_where, count_where, count_where-append, count_where-update_none,
}
use classing_backend.Store.Core.{unavailable, ok, err}
use classing_backend.Store.Rows.{EmailChallenge, Tables}
use classing_backend.Store.Challenges.{
  add_challenge, use_open_challenges, latest, too_soon, create_email_verification_challenge,
}

-- The challenges of a user that still take attempts, but for the time.
abbrev pub open_challenges : String → List EmailChallenge → ℕ
open_challenges user rows = count_where (λ c. c.user_id == user && c.used_at == 0) rows

abbrev new_challenge : ℕ → String → String → String → ℕ → String → String → EmailChallenge
new_challenge now id user code_hash expires_at ip ua = record {
  id = id;
  user_id = user;
  code_hash = code_hash;
  expires_at = expires_at;
  used_at = 0;
  request_ip = ip;
  request_ua = ua;
  created_at = now;
  failed_attempts = 0;
}

open_challenges-used :
    (now : ℕ) (user : String) (d : Tables)
    → 0 < now
    → open_challenges user (use_open_challenges now user d).email_challenges ≡ 0
open_challenges-used now user d pos =
    count_where-update_none (λ c. c.user_id == user && c.used_at == 0)
      (λ c. c.user_id == user && c.used_at == 0) (λ c. record c { used_at = now })
      d.email_challenges (λ c. ground arith)

latest-append :
    {A : Type 0} (created : A → ℕ) (p : A → Bool) (rows : List A) (r : A)
    → p r ≡ true
    → created r ≤ latest created (select_where p (rows ++ r ∷ []))
latest-append created p [] r h = ground arith
latest-append created p (x ∷ rows) r h = ground (arith, latest-append created p rows r h)

create-eq-ok :
    (now : ℕ) (id user code_hash : String) (expires_at : ℕ) (ip ua : String) (d d' : Tables)
    (r : String)
    → create_email_verification_challenge now id user code_hash expires_at ip ua d ≡ (ok r, d')
    → d'.email_challenges
      ≡ (use_open_challenges now user d).email_challenges
        ++ new_challenge now id user code_hash expires_at ip ua ∷ []
unfolding create_email_verification_challenge add_challenge
create-eq-ok now id user code_hash expires_at ip ua d d' r h = ground arith

refused :
    (later : ℕ) (id user code_hash : String) (expires_at : ℕ) (ip ua : String) (d : Tables)
    → too_soon later
        (latest (λ c. c.created_at) (select_where (λ c. c.user_id == user) d.email_challenges))
      ≡ true
    → create_email_verification_challenge later id user code_hash expires_at ip ua d
      ≡ (err unavailable, d)
unfolding create_email_verification_challenge
refused later id user code_hash expires_at ip ua d h = ground arith

-- After a new verification code, at a time that is not 0, it is the only one of the user that is not
-- used, and the next code is refused as unavailable until a minute has passed, whatever its arguments.
pub create-newest :
    (now : ℕ) (id user code_hash : String) (expires_at : ℕ) (ip ua : String) (d d' : Tables)
    (r : String) (later : ℕ) (id' code' : String) (expires' : ℕ) (ip' ua' : String)
    → 0 < now
    → later < now + 60000
    → create_email_verification_challenge now id user code_hash expires_at ip ua d ≡ (ok r, d')
    → (open_challenges user d'.email_challenges ≡ 1)
      × (create_email_verification_challenge later id' user code' expires' ip' ua' d'
          ≡ (err unavailable, d'))
create-newest now id user code_hash expires_at ip ua d d' r later id' code' expires' ip' ua' pos
      soon h =
    let rows = create-eq-ok now id user code_hash expires_at ip ua d d' r h in
    let row = new_challenge now id user code_hash expires_at ip ua in
    let old = (use_open_challenges now user d).email_challenges in
    let mine = (eq_iff user user).1 refl in
    let newest = latest-append (λ c. c.created_at) (λ c. c.user_id == user) old row mine in
    (
      rw rows (
          ground (
            arith,
            count_where-append (λ c. c.user_id == user && c.used_at == 0) old (row ∷ []),
            open_challenges-used now user d pos,
          )),
      refused later id' user code' expires' ip' ua' d' (rw rows (ground arith)),
    )
