-- ===== src/Store/Cloud/Versions.antt =====
-- The document of a user as a register with a version: a write names the version that it replaces.
use classing_backend.Base.{
  ℕ, ◌+◌, ◌≡◌, refl, String, true, false, ◌&&◌, none, some, List, arith, ◌==◌, nat_eq, string_eq,
  inl, inr, Option-cases, beq_refl,
}
use text.Mathlib.TextEquality.{eq_iff}
use classing_backend.Base.Int.{ℤ, is_nat}
use classing_backend.Base.Table.{
  select_one, update_where, select_one-update_where, select_one_passes, select_one-insert_new,
  select_one-insert_other, select_one-update_other,
}
use classing_backend.Store.Core.{ok}
use classing_backend.Store.ContentRows.{CloudDocument, Contents}
use classing_backend.Store.Cloud.{
  find_document, new_document, add_document, replace_document, write_document,
}

-- The version of a user's document, which is 0 while there is none.
abbrev pub version_at : String → Contents → ℕ
version_at user d = elim (find_document user d) [ none ↦ 0 | some c ↦ c.version ]

-- The document that a write of the user leaves.
abbrev pub next_document : ℕ → String → String → Contents → CloudDocument
next_document now user payload d = record (new_document now user payload) {
  version = version_at user d + 1;
}

-- A write that names the current version has put the next document in its place, and touched no other.
pub record Stored (now : ℕ) (user payload : String) (expected : ℤ) (d : Contents)
    (item : CloudDocument) (d' : Contents) : Type 0 where
  pub expected_current : is_nat expected (version_at user d) ≡ true
  pub next : item ≡ next_document now user payload d
  pub stored : find_document user d' ≡ some item
  pub others :
      (other : String) → (user == other) ≡ false → find_document other d' ≡ find_document other d
  pub keys : d'.idempotency_keys ≡ d.idempotency_keys

module _ (now : ℕ) (user payload : String) where
  find_document-replaced :
      (current : CloudDocument) (rows : List CloudDocument)
      → select_one (λ c. c.user_id == user) rows ≡ some current
      → select_one
          (λ c. c.user_id == user)
          (update_where
            (λ c. c.user_id == user && c.version == current.version)
            (λ c. record c { payload = payload; version = c.version + 1; updated_at = now })
            rows)
        ≡ some (record (new_document now user payload) { version = current.version + 1 })
  find_document-replaced current rows e =
      rw
        (
          select_one-update_where (λ c. c.user_id == user)
              (λ c. c.user_id == user && c.version == current.version)
              (λ c. record c { payload = payload; version = c.version + 1; updated_at = now }) rows
              (λ c. refl),
          e,
        )
        (ground (
          arith,
          select_one_passes (λ c. c.user_id == user) rows current e,
          eq_iff current.user_id user,
        ))

  find_document-others :
      (other : String) (version : ℕ) (rows : List CloudDocument)
      → (user == other) ≡ false
      → select_one
          (λ c. c.user_id == other)
          (update_where
            (λ c. c.user_id == user && c.version == version)
            (λ c. record c { payload = payload; version = c.version + 1; updated_at = now })
            rows)
        ≡ select_one (λ c. c.user_id == other) rows
  find_document-others other version rows e =
      select_one-update_other (λ c. c.user_id == other)
        (λ c. c.user_id == user && c.version == version)
        (λ c. record c { payload = payload; version = c.version + 1; updated_at = now }) rows
        (λ c. refl)
        (λ c h. ground (arith, eq_iff c.user_id user, eq_iff c.user_id other, eq_iff user other))

  pub write_document-Stored :
      (expected : ℤ) (d d' : Contents) (item : CloudDocument)
      → write_document now user payload expected d ≡ (ok item, d')
      → Stored now user payload expected d item d'
  unfolding write_document add_document replace_document
  write_document-Stored expected d d' item run = elim (Option-cases (find_document user d)) [
    | inl e ↦ record {
      expected_current = ground arith;
      next = ground arith;
      stored = ground (
        arith,
        select_one-insert_new (λ c. c.user_id == user) d.documents (new_document now user payload)
            e,
        beq_refl user,
      );
      others = λ other o. ground (
        arith,
        select_one-insert_other (λ c. c.user_id == other) d.documents
            (new_document now user payload) o,
      );
      keys = ground arith;
    }
    | inr (current, e) ↦ record {
      expected_current = ground arith;
      next = ground arith;
      stored = ground (arith, find_document-replaced current d.documents e);
      others = λ other o. ground (arith, find_document-others other current.version d.documents o);
      keys = ground arith;
    }
  ]
