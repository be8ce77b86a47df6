-- ===== src/Store/Credentials/Tests.antt =====
-- A run of a change of a password.
use classing_backend.Base.{◌≡◌, refl, arith}
use classing_backend.Store.Core.{ok}
use classing_backend.Store.Rows.{Tables}
use classing_backend.Store.Sessions.SignedOut.{SignedOut}
use classing_backend.Store.Fixtures.{signed_in}
use classing_backend.Store.Accounts.{sqlite, update_password}
use classing_backend.Store.Credentials.{change_credential, new_password, change-SignedOut}

abbrev changed : Tables
changed = (change_credential sqlite 20 (new_password "b" "h2") signed_in).1

changes_password : change_credential sqlite 20 (new_password "b" "h2") signed_in ≡ (ok "b", changed)
unfolding update_password
changes_password = refl

change-SignedOut_example : SignedOut 30 "b" changed
change-SignedOut_example =
    change-SignedOut sqlite 20 30 (new_password "b" "h2") signed_in changed "b" (omega arith)
      changes_password
