-- ===== src/Store/Mailboxes/Tests.antt =====
-- Runs of the mailboxes of internal/store/briefings.go.
use classing_backend.Base.{
  ℕ, ◌≤◌, ◌≡◌, refl, String, Bool, List, false, ◌∷◌, [], ◌==◌, string_eq, nat_eq, arith,
}
use text.Mathlib.TextEquality.{eq_iff}
use classing_backend.Base.Order.{order_by, insert_by}
use classing_backend.Base.Table.{count_where}
use classing_backend.Store.Core.{ok, err, not_found, invalid}
use classing_backend.Store.ContentRows.{Mailbox, Contents}
use classing_backend.Store.Fixtures.{contents}
use classing_backend.Store.Mailboxes.{
  acquire_mailbox_excluding, release_mailbox_reservation, create_mailbox, update_mailbox,
  delete_mailbox,
}
use classing_backend.Store.Mailboxes.Quota.{acquired_ids, acquired-le-quota}

abbrev first : Mailbox
first = record {
  id = "m1";
  name = "first";
  smtp_host = "smtp.example.org";
  smtp_port = 465;
  username = "";
  password_secret_ref = "env:SMTP";
  from_address = "a@example.org";
  daily_quota = 2;
  used_today = 2;
  usage_date = "2024-02-29";
  enabled = 1;
  created_at = 1;
  updated_at = 1;
}

abbrev second : Mailbox
second = record first {
  id = "m2";
  created_at = 2;
  used_today = 0;
  daily_quota = 1;
  usage_date = "2024-03-01";
}

abbrev pool : Contents
pool = record contents { mailboxes = first ∷ second ∷ [] }

abbrev thrice : List (ℕ × (String → Bool))
thrice = (5, λ _. false) ∷ (6, λ _. false) ∷ (7, λ k. k == "m2") ∷ (8, λ _. false) ∷ []

takes_turns : acquired_ids "2024-03-01" thrice pool ≡ "m1" ∷ "m2" ∷ "m1" ∷ []
unfolding acquired_ids acquire_mailbox_excluding order_by insert_by
takes_turns = refl

acquired-le-quota_example : count_where (λ k. k == "m2") (acquired_ids "2024-03-01" thrice pool) ≤ 1
acquired-le-quota_example =
    acquired-le-quota "2024-03-01" "m2" thrice pool second
      (λ id. ground (arith, eq_iff first.id id, eq_iff second.id id, eq_iff first.id second.id))
      refl

gives_back :
    (release_mailbox_reservation 9 "m1" "2024-02-29" pool).1.mailboxes
    ≡ record first { used_today = 1; updated_at = 9 } ∷ second ∷ []
unfolding release_mailbox_reservation
gives_back = refl

no_host : (create_mailbox 9 "m3" (record first { smtp_host = "" }) pool).0 ≡ err invalid
unfolding create_mailbox
no_host = refl

keeps_used :
    (update_mailbox 9 (record first { daily_quota = 9; used_today = 0 }) pool).0
    ≡ ok (record first { daily_quota = 9; updated_at = 9 })
unfolding update_mailbox
keeps_used = refl

unknown : (delete_mailbox "m3" pool).0 ≡ err not_found
unfolding delete_mailbox
unknown = refl
