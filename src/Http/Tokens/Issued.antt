-- ===== src/Http/Tokens/Issued.antt =====
-- What Parse of internal/auth/tokens.go has checked of a token that it accepts.
use Prim.Native.String.{◌++◌ as concat}
use classing_backend.Base.{
  ℕ, ◌≡◌, refl, ◌∙◌, ap, sym, String, true, false, ◌||◌, some, List, [], ◌∷◌, arith, ◌==◌, nat_eq,
  string_eq, inl, inr, Bool-cases, Option-cases, eq_of_beq,
}
use classing_backend.Base.Int.{pos, ltb_ℤ}
use classing_backend.Base.Text.{split_on}
use classing_backend.Http.Tokens.{Claims, Codec, parsed, check_token, read_parts, parse_token}

-- What an accepted token is made of.
pub record IsSigned (codec : Codec) (now : ℕ) (token : String) (claims : Claims) : Type 0 where
  pub header : String
  pub payload : String
  pub text : String
  pub parts :
      split_on b'.' token ≡ header ∷ payload ∷ codec.sign (concat header (concat "." payload)) ∷ []
  pub decoded : codec.decode payload ≡ some text
  pub claimed : codec.unmarshal text ≡ some claims
  pub in_time : ltb_ℤ (pos now) claims.expires ≡ true
  pub role : (claims.role == "ADMIN" || claims.role == "USER") ≡ true
  pub subject : (claims.subject == "") ≡ false
  pub session : (claims.session == "") ≡ false

module _ (codec : Codec) (now : ℕ) (token : String) (claims : Claims) where
  IsSigned-parts :
      (parts : List String)
      → split_on b'.' token ≡ parts
      → read_parts codec now parts ≡ parsed claims
      → IsSigned codec now token claims
  IsSigned-parts [] e h = absurd (ground arith)
  IsSigned-parts (a ∷ []) e h = absurd (ground arith)
  IsSigned-parts (a ∷ b ∷ []) e h = absurd (ground arith)
  IsSigned-parts (a ∷ b ∷ c ∷ d ∷ parts) e h = absurd (ground arith)
  IsSigned-parts (header ∷ payload ∷ signature ∷ []) e h =
      elim (Bool-cases (codec.sign (concat header (concat "." payload)) == signature)) [
        | inr other ↦ absurd (ground arith)
        | inl same ↦ elim (Option-cases (codec.decode payload)) [
          | inl undecoded ↦ absurd (ground arith)
          | inr (text, decoded) ↦ elim (Option-cases (codec.unmarshal text)) [
            | inl unread ↦ absurd (ground arith)
            | inr (c, read) ↦
                let checked : check_token codec now c ≡ parsed claims = ground arith in
                let mine : c ≡ claims = ground (arith, checked) in
                record {
                  header = header;
                  payload = payload;
                  text = text;
                  parts =
                      e
                      ∙ ap (λ s. header ∷ payload ∷ s ∷ [])
                          (sym (
                            eq_of_beq (codec.sign (concat header (concat "." payload))) signature
                              same));
                  decoded = decoded;
                  claimed = read ∙ ap (λ c. some c) mine;
                  in_time = ground (arith, checked, mine);
                  role = ground (arith, checked, mine);
                  subject = ground (arith, checked, mine);
                  session = ground (arith, checked, mine);
                }
          ]
        ]
      ]

  pub parsed-IsSigned :
      parse_token codec now token ≡ parsed claims → IsSigned codec now token claims
  unfolding parse_token
  parsed-IsSigned h = IsSigned-parts (split_on b'.' token) refl h
