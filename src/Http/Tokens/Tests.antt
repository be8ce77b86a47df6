-- ===== src/Http/Tokens/Tests.antt =====
-- Runs of Issue and Parse of internal/auth/tokens.go.
use classing_backend.Base.{◌≡◌, refl, none, some, if◌then◌else◌, ◌==◌, string_eq}
use classing_backend.Base.Text.{split_on}
use classing_backend.Store.Fixtures.{bob}
use classing_backend.Http.Tokens.{
  Claims, Codec, parsed, refused, invalid_format, invalid_signature, invalid_claims, token_expired,
  issued_claims, issue, parse_token, token_header,
}

abbrev sent : Claims
sent = issued_claims 20 900 "jti" bob "s"

-- An encoding that knows the header and one payload.
abbrev small : Codec
small = record {
  sign = λ text. if text == "H.P" then "S" else "?";
  encode = λ text. if text == token_header then "H" else text;
  decode = λ text. some text;
  marshal = λ claims. "P";
  unmarshal = λ text. if text == "P" then some sent else none;
}

issues : issue small 20 900 "jti" bob "s" ≡ ("H.P.S", 920000)
unfolding issue
issues = refl

reads_what_was_issued : parse_token small 919 "H.P.S" ≡ parsed sent
unfolding parse_token split_on
reads_what_was_issued = refl

expires : parse_token small 920 "H.P.S" ≡ refused token_expired
unfolding parse_token split_on
expires = refl

wants_the_signature : parse_token small 20 "H.P.?" ≡ refused invalid_signature
unfolding parse_token split_on
wants_the_signature = refl

wants_claims : parse_token small 20 "H.Q.?" ≡ refused invalid_claims
unfolding parse_token split_on
wants_claims = refl

wants_three_parts : parse_token small 20 "H.P" ≡ refused invalid_format
unfolding parse_token split_on
wants_three_parts = refl
