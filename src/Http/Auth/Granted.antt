-- ===== src/Http/Auth/Granted.antt =====
-- Who has passed requireAuth of internal/httpapi/middleware.go.
use classing_backend.Base.{
  ℕ, ◌/◌, Bool, ◌&&◌, ltb, eq_of_beq, beq_refl, ◌<◌, ◌≡◌, ◌≢◌, ap, ◌∙◌, String, true, Option, some,
  ◌==◌, nat_eq, string_eq, arith, inl, inr, Option-cases,
}
use text.Mathlib.TextEquality.{eq_iff}
use Prim.Native.String.{len, slice}
use classing_backend.Base.Int.{pos}
use classing_backend.Base.Text.{trim_space, to_lower}
use classing_backend.Base.Table.{select_one, count_where}
use classing_backend.Store.Core.{ok}
use classing_backend.Store.Rows.{Session, Tables, status_active}
use classing_backend.Store.Accounts.{Dialect, user_by_id}
use classing_backend.Store.Sessions.{session_active}
use classing_backend.Store.Credentials.{CredentialChange, change_credential, change-SignedOut}
use classing_backend.Http.Tokens.{
  Claims, Codec, Parsed, parsed, refused, parse_token, accepted, token_parser,
}
use classing_backend.Http.Tokens.Issued.{IsSigned, parsed-IsSigned}
use classing_backend.Http.Auth.{Principal, granted, check_claims, require_auth}

-- A session of a user that is neither revoked nor over.
abbrev pub is_open : ℕ → String → String → Session → Bool
is_open now user id s = s.id == id && s.user_id == user && s.revoked_at == 0 && ltb now s.expires_at

-- What the claims of a token and the tables say of the principal that they let pass.
pub record IsOwner (now : ℕ) (claims : Claims) (d : Tables) (p : Principal) : Type 0 where
  pub user : select_one (λ u. u.id == claims.subject) d.users ≡ some p.user
  pub active : p.user.status ≡ "ACTIVE"
  pub epoch : claims.epoch ≡ pos p.user.auth_epoch
  pub session : p.session_id ≡ claims.session
  pub named : p.session_id ≢ ""
  pub live : count_where (is_open now p.user.id p.session_id) d.sessions ≡ 1

check_claims-IsOwner :
    (now : ℕ) (claims : Claims) (d : Tables) (p : Principal)
    → check_claims now claims d ≡ granted p
    → IsOwner now claims d p
unfolding check_claims user_by_id session_active
check_claims-IsOwner now claims d p h =
    elim (Option-cases (select_one (λ u. u.id == claims.subject) d.users)) [
      | inl e ↦ absurd (ground arith)
      | inr (u, e) ↦
          let same : u ≡ p.user = ground arith in
          record {
            user = e ∙ ap (λ u. some u) same;
            active = ground (arith, eq_iff u.status status_active);
            epoch = ground arith;
            session = ground arith;
            named = ground (arith, beq_refl p.session_id);
            live = ground arith;
          }
    ]

-- The token that a header carries.
abbrev pub token_of : String → String
token_of header = let h = trim_space header in trim_space (slice h 7 (len h))

require_auth-parsed :
    (parse : String → Option Claims) (now : ℕ) (header : String) (d : Tables) (p : Principal)
    → require_auth parse now header d ≡ granted p
    → (slice (to_lower (trim_space header)) 0 7 ≡ "bearer ")
      × (claims : Claims) × (parse (token_of header) ≡ some claims)
      × IsOwner now claims d p
unfolding require_auth
require_auth-parsed parse now header d p h = elim (Option-cases (parse (token_of header))) [
  | inl e ↦ absurd (ground arith)
  | inr (claims, e) ↦
      let run : check_claims now claims d ≡ granted p = ground arith in
      (
        eq_of_beq (slice (to_lower (trim_space header)) 0 7) "bearer " (ground arith),
        claims,
        e,
        check_claims-IsOwner now claims d p run,
      )
]

-- Whoever passes has shown a token in the header, behind the word Bearer in any case of letters, that was
-- signed with the secret and has not expired: its three parts are separated by points, the third is the
-- signature of the others, the second decodes to claims whose role is ADMIN or USER, whose subject is the id
-- of a stored account, the principal's, which is ACTIVE and has the epoch of the claims, and whose session,
-- which is named, is the principal's, a stored session of that account that is neither revoked nor over.
pub require_auth-granted :
    (codec : Codec) (now : ℕ) (header : String) (d : Tables) (p : Principal)
    → require_auth (token_parser codec now) now header d ≡ granted p
    → (slice (to_lower (trim_space header)) 0 7 ≡ "bearer ")
      × (claims : Claims) × IsSigned codec (now / 1000) (token_of header) claims
      × IsOwner now claims d p
require_auth-granted codec now header d p h =
    let (bearer, claims, e, owner) =
      require_auth-parsed (token_parser codec now) now header d p h in
    (
      bearer,
      claims,
      parsed-IsSigned codec (now / 1000) (token_of header) claims
          (accepted_parsed (parse_token codec (now / 1000) (token_of header)) claims e),
      owner,
    )
  where
    accepted_parsed : (r : Parsed) (claims : Claims) → accepted r ≡ some claims → r ≡ parsed claims
    accepted_parsed (parsed c) claims e = ground arith
    accepted_parsed (refused t) claims e = absurd (ground arith)

owner_active :
    (now : ℕ) (claims : Claims) (d : Tables) (p : Principal) (user : String)
    → p.user.id ≡ user
    → IsOwner now claims d p
    → session_active now user p.session_id d ≡ true
unfolding session_active
owner_active now claims d p user mine owner =
    ground (arith, owner.named, owner.live, eq_of_beq p.session_id "")

-- After a user has changed the password or the e-mail address, has reset the password, or is
-- deleted, at a time that is not 0, the tables that the change leaves let nobody pass as that user,
-- at any time, whatever the header and however tokens are parsed.
pub change-ne-granted :
    (dialect : Dialect) (now : ℕ) (change : CredentialChange) (d d' : Tables) (user : String)
    (parse : String → Option Claims) (later : ℕ) (header : String) (p : Principal)
    → 0 < now
    → change_credential dialect now change d ≡ (ok user, d')
    → p.user.id ≡ user
    → require_auth parse later header d' ≢ granted p
change-ne-granted dialect now change d d' user parse later header p positive run mine passed =
    let (bearer, claims, e, owner) = require_auth-parsed parse later header d' p passed in
    let out = (change-SignedOut dialect now later change d d' user positive run).0 p.session_id in
    ground (arith, out, owner_active later claims d' p user mine owner)
