-- ===== src/Store/Challenges/Revocation.antt =====
-- What a change of an e-mail address, internal/store/users.go, does to the sessions.
use classing_backend.Base.{
  ℕ, ◌≡◌, ◌∙◌, ap, sym, String, ◌&&◌, arith, ◌==◌, nat_eq, string_eq, inl, inr, Option-cases,
}
use text.Mathlib.TextEquality.{eq_iff}
use classing_backend.Base.Table.{select_one, update_where, select_one_passes}
use classing_backend.Store.Core.{ok}
use classing_backend.Store.Rows.{User, EmailChange, Tables}
use classing_backend.Store.Sessions.SignedOut.{Revoked}
use classing_backend.Store.Sessions.Laws.{revoke_all-users}
use classing_backend.Store.Challenges.{
  accept_change, consume_email_change_request, find_change, set_email,
}

abbrev used_change : ℕ → EmailChange → Tables → Tables
used_change now row d = record d {
  email_changes =
      update_where (λ c. c.id == row.id && c.used_at == 0) (λ c. record c { used_at = now })
        d.email_changes;
}

accept_change-Revoked :
    (now : ℕ) (row : EmailChange) (d d' : Tables) (user : User)
    → accept_change now row d ≡ (ok (ok user), d')
    → Revoked now user.id d'
unfolding accept_change
accept_change-Revoked now row d d' user h =
    let before = set_email now row.user_id row.new_email (used_change now row d) in
    elim (Option-cases (select_one (λ u. u.id == row.user_id) before.users)) [
      | inl e ↦ absurd (ground (arith, revoke_all-users now row.user_id before))
      | inr (owner, e) ↦
          let same : owner ≡ user = ground (arith, revoke_all-users now row.user_id before) in
          let is : row.user_id ≡ user.id =
            sym (
              (eq_iff owner.id row.user_id).0
                (select_one_passes (λ u. u.id == row.user_id) before.users owner e).0)
            ∙ ap (λ u. u.id) same in
          rw (← is) (before, ground arith, ground arith)
    ]

pub consume_email_change_request-Revoked :
    (now : ℕ) (request code : String) (d d' : Tables) (user : User)
    → consume_email_change_request now request code d ≡ (ok user, d')
    → Revoked now user.id d'
unfolding consume_email_change_request
consume_email_change_request-Revoked now request code d d' user h =
    elim (Option-cases (find_change request d)) [
      | inl e ↦ absurd (ground arith)
      | inr (row, e) ↦ accept_change-Revoked now row d d' user (ground arith)
    ]
