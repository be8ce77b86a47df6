-- ===== src/Http/Tokens.antt =====
-- internal/auth/tokens.go: access tokens. The HMAC of a text with the secret, as text, the encoding of
-- base64.RawURLEncoding and the encoding of claims by encoding/json are arguments, as a Codec.
pub mod Issued
mod Tests
use Prim.Native.String.{◌++◌ as concat}
use classing_backend.Base.{
  ℕ, ◌+◌, ◌*◌, ◌/◌, String, Bool, true, false, not, ◌&&◌, ◌||◌, Option, none, some, List, [], ◌∷◌,
  if◌then◌else◌, ◌==◌, string_eq,
}
use classing_backend.Base.Int.{ℤ, pos, leb_ℤ}
use classing_backend.Base.Text.{split_on}
use classing_backend.Store.Rows.{User, role_admin, role_user}

-- Times are in seconds.
pub record Claims : Type 0 where
  pub subject : String
  pub session : String
  pub role : String
  pub issued : ℤ
  pub expires : ℤ
  pub id : String
  pub epoch : ℤ

pub record Codec : Type 0 where
  pub sign : String → String
  pub encode : String → String
  pub decode : String → Option String
  pub marshal : Claims → String
  pub unmarshal : String → Option Claims

pub data TokenError : Type 0 where
  invalid_format invalid_signature invalid_payload invalid_claims token_expired invalid_role :
      TokenError

pub data Parsed : Type 0 where
  parsed : Claims → Parsed
  refused : TokenError → Parsed

-- What requireAuth makes of it: every error is the same.
abbrev pub accepted : Parsed → Option Claims
accepted (parsed claims) = some claims
accepted (refused e) = none

-- `id` is drawn at random.
abbrev pub issued_claims : ℕ → ℕ → String → User → String → Claims
issued_claims now ttl id user session = record {
  subject = user.id;
  session = session;
  role = user.role;
  issued = pos now;
  expires = pos (now + ttl);
  id = id;
  epoch = pos user.auth_epoch;
}

abbrev pub token_header : String
token_header = "{\"alg\":\"HS256\",\"typ\":\"JWT\"}"

module _ (codec : Codec) where
  abbrev pub unsigned_token : Claims → String
  unsigned_token claims =
      concat (codec.encode token_header) (concat "." (codec.encode (codec.marshal claims)))

  -- The token and the milliseconds of its end.
  unfoldable pub issue : ℕ → ℕ → String → User → String → String × ℕ
  issue now ttl id user session =
      let unsigned = unsigned_token (issued_claims now ttl id user session) in
      (concat unsigned (concat "." (codec.sign unsigned)), (now + ttl) * 1000)

  abbrev pub check_token : ℕ → Claims → Parsed
  check_token now claims =
      if claims.subject == "" || claims.session == "" || leb_ℤ claims.expires (pos now)
      then refused token_expired
      else if not (claims.role == role_admin) && not (claims.role == role_user)
      then refused invalid_role
      else parsed claims

  abbrev pub read_payload : ℕ → String → Parsed
  read_payload now payload = elim (codec.decode payload) [
    | none ↦ refused invalid_payload
    | some text ↦ (elim (codec.unmarshal text) [
      | none ↦ refused invalid_claims
      | some claims ↦ check_token now claims
    ])
  ]

  abbrev pub read_parts : ℕ → List String → Parsed
  read_parts now (header ∷ payload ∷ signature ∷ []) =
      if not (codec.sign (concat header (concat "." payload)) == signature)
      then refused invalid_signature
      else read_payload now payload
  read_parts now _ = refused invalid_format

  unfoldable pub parse_token : ℕ → String → Parsed
  parse_token now token = read_parts now (split_on b'.' token)

-- The token service of requireAuth. The clock of the server counts milliseconds.
abbrev pub token_parser : Codec → ℕ → String → Option Claims
token_parser codec now token = accepted (parse_token codec (now / 1000) token)
