-- ===== src/Store/Sessions/Reuse.antt =====
-- Rotation of a refresh token, and what happens when a token that was rotated is used again.
use classing_backend.Base.{
  ℕ, ◌<◌, ◌≡◌, refl, ◌∙◌, ap, sym, ◌≢◌, String, Bool, true, false, not, ◌&&◌, ◌||◌, Option, some,
  [], ◌∷◌, ◌++◌, arith, leb, if◌then◌else◌, ◌==◌, nat_eq, string_eq, inl, inr, Bool-cases,
  Option-cases, beq_refl,
}
use text.Mathlib.TextEquality.{eq_iff}
use classing_backend.Base.Table.{select_one, select_one-append, select_one-update_where}
use classing_backend.Store.Core.{
  forbidden, ok, err, transaction, transaction-eq-ok, normalize_db_error, no_rows, or_fail, ◌>>=◌,
}
use classing_backend.Store.Rows.{User, RefreshToken, Tables, status_active}
use classing_backend.Store.Sessions.{
  revoke_sessions, session_active, add_refresh_token, rotate_live, rotate_dead,
  rotate_refresh_token_session, mark_rotated, next_token, touch_session,
}
use classing_backend.Store.Sessions.Laws.{session_active-revoke_sessions}

abbrev pub find_token : String → Tables → Option RefreshToken
find_token hash d = select_one (λ t. t.token_hash == hash) d.refresh_tokens

-- The tables after a rotation.
abbrev rotated : ℕ → String → RefreshToken → String → ℕ → String → String → Tables → Tables
rotated now new_id token new_hash new_expires_at ip ua d = record d {
  refresh_tokens =
      mark_rotated now new_id token d.refresh_tokens
      ++ next_token now new_id token new_hash new_expires_at ip ua ∷ [];
  sessions = touch_session now token.session_id new_expires_at ip ua d.sessions;
}

rotate_live-eq-ok :
    (now : ℕ) (new_id : String) (token : RefreshToken) (new_hash : String) (new_expires_at : ℕ)
    (ip ua : String) (d d' : Tables) (user : User) (session : String)
    → rotate_live now new_id token new_hash new_expires_at ip ua d ≡ (ok (ok (user, session)), d')
    → (d' ≡ rotated now new_id token new_hash new_expires_at ip ua d)
      × (token.session_id ≡ session)
      × ((token.session_id == "") ≡ false)
unfolding rotate_live add_refresh_token
rotate_live-eq-ok now new_id token new_hash new_expires_at ip ua d d' user session run =
    ground arith

-- The states of the tables that a successful rotation needs and leaves.
pub record Rotation (now : ℕ) (new_id old_hash new_hash : String) (new_expires_at : ℕ)
    (ip ua : String) (user : User) (session : String) (d d' : Tables) : Type 0 where
  pub token : RefreshToken
  pub found : find_token old_hash d ≡ some token
  pub unrevoked : token.revoked_at ≡ 0
  pub unexpired : now < token.expires_at
  pub named : (token.session_id == "") ≡ false
  pub in_session : token.session_id ≡ session
  pub active : session_active now token.user_id session d ≡ true
  pub owner : select_one (λ u. u.id == token.user_id) d.users ≡ some user
  pub owner_active : user.status ≡ status_active
  pub after : d' ≡ rotated now new_id token new_hash new_expires_at ip ua d

rotate_live-Rotation :
    (now : ℕ) (new_id old_hash : String) (token : RefreshToken) (new_hash : String)
    (new_expires_at : ℕ) (ip ua : String) (d d' : Tables) (user : User) (session : String)
    → find_token old_hash d ≡ some token
    → token.revoked_at ≡ 0
    → now < token.expires_at
    → rotate_live now new_id token new_hash new_expires_at ip ua d ≡ (ok (ok (user, session)), d')
    → Rotation now new_id old_hash new_hash new_expires_at ip ua user session d d'
rotate_live-Rotation now new_id old_hash token new_hash new_expires_at ip ua d d' user session e r x
      run =
    let shape =
      rotate_live-eq-ok now new_id token new_hash new_expires_at ip ua d d' user session run in
    record {
      token = token;
      found = e;
      unrevoked = r;
      unexpired = x;
      named = shape.2;
      in_session = shape.1;
      active = rw (← shape.1) (unfold rotate_live add_refresh_token session_active in ground arith);
      owner = unfold rotate_live add_refresh_token in ground arith;
      owner_active =
          unfold rotate_live add_refresh_token in ground (arith, eq_iff user.status status_active);
      after = shape.0;
    }

-- Where the token is found, the operation is one of its two branches.
rotate_found :
    (now : ℕ) (new_id old_hash new_hash : String) (new_expires_at : ℕ) (ip ua : String)
    (token : RefreshToken) (d : Tables)
    → find_token old_hash d ≡ some token
    → rotate_refresh_token_session now new_id old_hash new_hash new_expires_at ip ua d
      ≡ transaction
          (if not (token.revoked_at == 0) || leb token.expires_at now
            then rotate_dead now token
            else rotate_live now new_id token new_hash new_expires_at ip ua)
          d
unfolding rotate_refresh_token_session
rotate_found now new_id old_hash new_hash new_expires_at ip ua token d e =
    ap
      (λ found.
        transaction
          (or_fail found (normalize_db_error no_rows) >>= λ (token : RefreshToken).
            if not (token.revoked_at == 0) || leb token.expires_at now
            then rotate_dead now token
            else rotate_live now new_id token new_hash new_expires_at ip ua)
          d)
      e

dead-ne-ok :
    (now : ℕ) (token : RefreshToken) (d d' : Tables) (r : User × String)
    → rotate_dead now token d ≢ (ok (ok r), d')
unfolding rotate_dead
dead-ne-ok now token d d' r h = ground arith

-- A rotation succeeds only with a token that is stored, neither revoked nor expired, of a session
-- that is active and an account that is active. It then marks that token as replaced, adds the new
-- token to the same session, and gives the session the new expiry.
pub rotate-eq-ok :
    (now : ℕ) (new_id old_hash new_hash : String) (new_expires_at : ℕ) (ip ua : String)
    (d d' : Tables) (user : User) (session : String)
    → rotate_refresh_token_session now new_id old_hash new_hash new_expires_at ip ua d
      ≡ (ok (user, session), d')
    → Rotation now new_id old_hash new_hash new_expires_at ip ua user session d d'
unfolding rotate_refresh_token_session
rotate-eq-ok now new_id old_hash new_hash new_expires_at ip ua d d' user session run =
    elim (Option-cases (find_token old_hash d)) [
      | inl e ↦ absurd (ground arith)
      | inr (token, e) ↦
          let run' =
            rw (rotate_found now new_id old_hash new_hash new_expires_at ip ua token d e) at run in
          elim (Bool-cases (not (token.revoked_at == 0) || leb token.expires_at now)) [
            | inl dead ↦ absurd (
                dead-ne-ok now token d d' (user, session)
                  (transaction-eq-ok (rotate_dead now token) d d' (user, session)
                    (rw dead at run')))
            | inr live ↦
                rotate_live-Rotation now new_id old_hash token new_hash new_expires_at ip ua d d'
                  user session e (ground arith) (ground arith)
                  (transaction-eq-ok (rotate_live now new_id token new_hash new_expires_at ip ua) d
                    d' (user, session) (rw live at run'))
          ]
    ]

-- The marked token is found again under its own hash, revoked.
find_token-rotated :
    (now : ℕ) (new_id old_hash new_hash : String) (token : RefreshToken) (new_expires_at : ℕ)
    (ip ua : String) (d : Tables)
    → find_token old_hash d ≡ some token
    → token.revoked_at ≡ 0
    → find_token old_hash (rotated now new_id token new_hash new_expires_at ip ua d)
      ≡ some (record token { revoked_at = now; replaced_by = new_id })
find_token-rotated now new_id old_hash new_hash token new_expires_at ip ua d e r =
    let p : RefreshToken → Bool = λ t. t.token_hash == old_hash in
    let new = next_token now new_id token new_hash new_expires_at ip ua in
    rw
      (
        select_one-append p (mark_rotated now new_id token d.refresh_tokens) (new ∷ []),
        select_one-update_where p (λ t. t.id == token.id && t.revoked_at == 0)
            (λ t. record t { revoked_at = now; replaced_by = new_id }) d.refresh_tokens (λ t. refl),
        e,
      )
      (ground (arith, beq_refl token.id))

-- A token that is revoked, used again, ends its session for good, whoever uses it.
rotate_revoked :
    (now : ℕ) (new_id old_hash new_hash : String) (new_expires_at : ℕ) (ip ua : String)
    (token : RefreshToken) (d : Tables)
    → find_token old_hash d ≡ some token
    → token.revoked_at ≢ 0
    → (token.session_id == "") ≡ false
    → rotate_refresh_token_session now new_id old_hash new_hash new_expires_at ip ua d
      ≡ (err forbidden, revoke_sessions now (λ s. s.id == token.session_id) d)
unfolding rotate_dead
rotate_revoked now new_id old_hash new_hash new_expires_at ip ua token d e r s =
    rw (rotate_found now new_id old_hash new_hash new_expires_at ip ua token d e) (ground arith)

-- A refresh token with which a rotation has succeeded is used a second time, by whomever and with
-- whatever, both at times that are not 0: the call fails with Forbidden, and what it commits leaves
-- the session inactive for every user and time.
pub reuse_ends_session :
    (now : ℕ) (new_id old_hash new_hash : String) (new_expires_at : ℕ) (ip ua : String)
    (d d' : Tables) (user : User) (session : String) (later : ℕ) (id' hash' : String) (expires' : ℕ)
    (ip' ua' : String)
    → 0 < now
    → 0 < later
    → rotate_refresh_token_session now new_id old_hash new_hash new_expires_at ip ua d
      ≡ (ok (user, session), d')
    → let (r, d'') = rotate_refresh_token_session later id' old_hash hash' expires' ip' ua' d' in
      (r ≡ err forbidden)
      × ((t : ℕ) (anyone : String) → session_active t anyone session d'' ≡ false)
reuse_ends_session now new_id old_hash new_hash new_expires_at ip ua d d' user session later id'
      hash' expires' ip' ua' pos pos' run =
    let r = rotate-eq-ok now new_id old_hash new_hash new_expires_at ip ua d d' user session run in
    let t = r.token in
    let shape = rotated now new_id t new_hash new_expires_at ip ua d in
    rw
      (
        r.after,
        rotate_revoked later id' old_hash hash' expires' ip' ua'
            (record t { revoked_at = now; replaced_by = new_id }) shape
            (find_token-rotated now new_id old_hash new_hash t new_expires_at ip ua d r.found
              r.unrevoked)
            (omega arith) r.named,
      )
      (
        refl,
        λ when anyone.
            session_active-revoke_sessions later when (λ s. s.id == t.session_id) anyone session
              shape pos' (λ s h _. (eq_iff s.id t.session_id).1 (h ∙ sym r.in_session)),
      )
