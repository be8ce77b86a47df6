-- ===== src/Store/Events.antt =====
-- internal/store/events.go: the events that clients poll, and the audit row beside them.
use Prim.Native.String.{compare}
use Prim.Native.String.{◌++◌ as concat}
use Prim.Native.Nat.{Ordering}
use classing_backend.Base.{
  ℕ, String, Bool, true, false, ◌&&◌, ◌||◌, none, some, List, ltb, if◌then◌else◌, ◌==◌, nat_eq,
  string_eq,
}
use classing_backend.Base.Lists.{take}
use classing_backend.Base.Order.{order_by}
use classing_backend.Base.Table.{select_where}
use classing_backend.Base.Decimal.{format_padded}
use classing_backend.Store.Core.{database, duplicate_key, ok, Action, fail, insert_row}
use classing_backend.Store.Rows.{AuditContext}
use classing_backend.Store.ContentRows.{EventPayload, RuntimeEvent, Contents}
use classing_backend.Store.Accounts.{audit_in_tx}

-- The audit row of a transaction on these tables.
unfoldable pub audit_contents : ℕ → String → AuditContext → Action Contents (Unit {0})
audit_contents now id audit d =
    let (r, accounts) = audit_in_tx now id audit d.accounts in (r, record d { accounts = accounts })

-- `token` is six random bytes as text.
abbrev pub event_id : ℕ → String → String
event_id now token = concat "evt_" (concat (format_padded 13 now) (concat "_" token))

unfoldable pub runtime_event_in_tx :
    ℕ → String → String → String → EventPayload → Action Contents (Unit {0})
runtime_event_in_tx now token user event_type payload d =
    let row : RuntimeEvent = record {
      id = event_id now token;
      user_id = user;
      event_type = event_type;
      payload = payload;
      created_at = now;
    } in
    elim (insert_row (λ e. e.id == row.id) row d.events) [
      | none ↦ fail (database duplicate_key) d
      | some rows ↦ (ok tt, record d { events = rows })
    ]

-- The order of the database on texts is taken to be that of their characters.
abbrev pub text_ltb : String → String → Bool
text_ltb s t = elim (compare s t) [ Ordering.lt ↦ true | _ ↦ false ]

runtime_events : String → String → ℕ → Contents → List RuntimeEvent
unfolding order_by
runtime_events user after_id limit d =
    let limit' = if ltb limit 1 || ltb 100 limit then 100 else limit in
    take limit' (
      order_by (λ e e'. text_ltb e.id e'.id)
        (select_where (λ e. text_ltb after_id e.id && (e.user_id == "" || e.user_id == user))
          d.events))
