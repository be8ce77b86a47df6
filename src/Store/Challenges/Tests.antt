-- ===== src/Store/Challenges/Tests.antt =====
-- Runs of the verification codes of internal/store/users.go.
use classing_backend.Base.{ℕ, ◌≡◌, refl, String, List, [], ◌∷◌, arith}
use text.Mathlib.TextEquality.{eq_iff}
use classing_backend.Base.Text.{trim_space, to_lower}
use classing_backend.Store.Core.{ok, err, forbidden}
use classing_backend.Store.Rows.{Tables}
use classing_backend.Store.Sessions.{revoke_all}
use classing_backend.Store.Fixtures.{accounts, challenge, bob}
use classing_backend.Store.Challenges.{
  create_email_verification_challenge, add_challenge, consume_email_verification_challenge,
  accept_challenge, cancel_email_verification_challenge, create_email_change_request, add_change,
  pending_email_change, consume_email_change_request, accept_change,
}
use classing_backend.Store.Challenges.Attempts.{attempts, guesses_run_out}

abbrev challenged : Tables
challenged = record accounts { email_challenges = challenge ∷ [] }

abbrev guesses : List (ℕ × String)
guesses =
    (11, "0")
    ∷ (12, "1")
    ∷ (13, "2")
    ∷ (14, "3")
    ∷ (15, "4")
    ∷ (16, "5")
    ∷ (17, "6")
    ∷ (18, "7")
    ∷ (19, "8")
    ∷ (20, "9")
    ∷ []

guesses_run_out_example :
    consume_email_verification_challenge 30 "c" "code" (attempts "c" guesses challenged)
    ≡ (err forbidden, attempts "c" guesses challenged)
guesses_run_out_example =
    guesses_run_out 30 "c" "code" guesses challenged challenge refl
      (ground (
        arith,
        eq_iff "0" "code",
        eq_iff "1" "code",
        eq_iff "2" "code",
        eq_iff "3" "code",
        eq_iff "4" "code",
        eq_iff "5" "code",
        eq_iff "6" "code",
        eq_iff "7" "code",
        eq_iff "8" "code",
        eq_iff "9" "code",
      ))
      (omega arith)

verifies : (consume_email_verification_challenge 30 "c" "code" challenged).0 ≡ ok bob
unfolding consume_email_verification_challenge accept_challenge
verifies = refl

cancelled :
    (consume_email_verification_challenge 30 "c" "code"
      (cancel_email_verification_challenge 20 "c" challenged).1).0
    ≡ err forbidden
unfolding consume_email_verification_challenge cancel_email_verification_challenge
cancelled = refl

abbrev sent : Tables
sent = (create_email_verification_challenge 50 "c2" "b" "x" 2000 "ip" "ua" accounts).1

sends :
    create_email_verification_challenge 50 "c2" "b" "x" 2000 "ip" "ua" accounts ≡ (ok "c2", sent)
unfolding create_email_verification_challenge add_challenge
sends = refl

abbrev changing : Tables
changing = (create_email_change_request 50 "e" "b" " New@Example.org" "x" 2000 "ip" "ua" accounts).1

is_pending : (pending_email_change 60 "b" changing).0 ≡ ok ("new@example.org", 2000)
unfolding create_email_change_request add_change pending_email_change trim_space to_lower
is_pending = refl

changes :
    (consume_email_change_request 60 "e" "x" changing).0
    ≡ ok (record bob { email = "new@example.org"; auth_epoch = 60; updated_at = 60 })
unfolding create_email_change_request add_change consume_email_change_request accept_change
    revoke_all trim_space to_lower
changes = refl
