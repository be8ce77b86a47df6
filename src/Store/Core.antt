-- ===== src/Store/Core.antt =====
-- internal/store/core.go: the errors, and how an operation runs. An operation maps the tables to its
-- result and the tables that it leaves. The statements of an operation see no other operation's, as
-- inside a transaction; a statement fails on a missing row or a violated UNIQUE constraint only.
use classing_backend.Base.{
  Bool, Option, none, some, List, [], ◌∷◌, ◌++◌, if◌then◌else◌, ltb, ◌≡◌, refl, ◌⊎◌, inl, inr,
  arith,
}
use classing_backend.Base.Table.{count_where}

-- What a statement of the database fails with: sql.ErrNoRows, or a duplicate key.
pub data DbError : Type 0 where
  no_rows duplicate_key : DbError

pub data Error : Type 0 where
  not_found conflict forbidden invalid unavailable : Error
  device_authorization_pending device_authorization_expired : Error
  device_authorization_consumed : Error
  idempotency_key_reused : Error
  database : DbError → Error

unfoldable pub normalize_db_error : DbError → Error
normalize_db_error no_rows = not_found
normalize_db_error duplicate_key = conflict

pub data Result (A : Type 0) : Type 0 where
  ok : A → Result A
  err : Error → Result A

abbrev pub Action : Type 0 → Type 0 → Type 0
Action D A = D → Result A × D

module _ {D A : Type 0} where
  abbrev pub pure : A → Action D A
  pure a d = (ok a, d)

  abbrev pub fail : Error → Action D A
  fail e d = (err e, d)

  abbrev pub gets : (D → A) → Action D A
  gets f d = (ok (f d), d)

  abbrev pub or_fail : Option A → Error → Action D A
  or_fail none e = fail e
  or_fail (some a) _ = pure a

infixl 5 ◌>>=◌ ◌>>◌
abbrev pub ◌>>=◌ : {D A B : Type 0} → Action D A → (A → Action D B) → Action D B
◌>>=◌ m f d = let (r, d') = m d in elim r [ ok a ↦ f a d' | err e ↦ fail e d' ]

abbrev pub ◌>>◌ : {D A B : Type 0} → Action D A → Action D B → Action D B
m >> k = m >>= λ _. k

module _ {D : Type 0} where
  abbrev pub fail_if : Bool → Error → Action D (Unit {0})
  fail_if c e d = (if c then err e else ok tt, d)

  abbrev pub modify : (D → D) → Action D (Unit {0})
  modify f d = (ok tt, f d)

  -- The body's own failure rolls back. What it commits is a result, which may be an error that is
  -- returned after the commit.
  abbrev pub transaction : {A : Type 0} → Action D (Result A) → Action D A
  transaction body d = let (r, d') = body d in elim r [ ok a ↦ (a, d') | err e ↦ (err e, d) ]

  abbrev pub commit : {A : Type 0} → A → Action D (Result A)
  commit a = pure (ok a)

  abbrev pub commit_and_fail : {A : Type 0} → Error → Action D (Result A)
  commit_and_fail e = pure (err e)

-- INSERT INTO rows, where no row may be a duplicate of the new one.
abbrev pub insert_row : {A : Type 0} → (A → Bool) → A → List A → Option (List A)
insert_row is_duplicate row rows =
    if ltb 0 (count_where is_duplicate rows) then none else some (rows ++ row ∷ [])

pub Result-cases :
    {A : Type 0} (r : Result A) → ((a : A) × (r ≡ ok a)) ⊎ ((e : Error) × (r ≡ err e))
Result-cases (ok a) = inl (a, refl)
Result-cases (err e) = inr (e, refl)

module _ {D : Type 0} where
  -- A transaction that returns a value has committed what its body made.
  pub transaction-eq-ok :
      {A : Type 0} (body : Action D (Result A)) (d d' : D) (a : A)
      → transaction body d ≡ (ok a, d')
      → body d ≡ (ok (ok a), d')
  transaction-eq-ok body d d' a h = ground arith

  -- A transaction that fails has left the tables alone, or has committed them with the failure.
  pub transaction-eq-err :
      {A : Type 0} (body : Action D (Result A)) (d d' : D) (e : Error)
      → transaction body d ≡ (err e, d')
      → (d' ≡ d) ⊎ (body d ≡ (ok (err e), d'))
  transaction-eq-err body d d' e h = ground arith

  -- A sequence succeeds where its parts do.
  pub >>=-eq-ok :
      {A B : Type 0} (m : Action D A) (f : A → Action D B) (d d' : D) (b : B)
      → (m >>= f) d ≡ (ok b, d')
      → (a : A) × (d₁ : D) × (m d ≡ (ok a, d₁)) × (f a d₁ ≡ (ok b, d'))
  >>=-eq-ok m f d d' b h = elim (Result-cases (m d).0) [
    | inl (a, e) ↦ (a, (m d).1, ground arith, ground arith)
    | inr (_, e) ↦ absurd (ground arith)
  ]

  -- What holds before a transaction, and after its body where that succeeds, holds after it.
  pub transaction_keeps {ℓ} :
      {A : Type 0} (P : D → Type ℓ) (body : Action D (Result A)) (d : D)
      → P d
      → ((a : Result A) (d' : D) → body d ≡ (ok a, d') → P d')
      → P (transaction body d).1
  transaction_keeps P body d before after = elim (Result-cases (body d).0) [
    | inl (a, e) ↦
        let done : body d ≡ (ok a, (body d).1) = ground arith in
        rw (done, transaction) (after a (body d).1 done)
    | inr (r, e) ↦
        let done : body d ≡ (err r, (body d).1) = ground arith in rw (done, transaction) before
  ]

  -- What holds after the first part of a sequence, and what the second part keeps, holds after both.
  pub >>=_keeps {ℓ} :
      {A B : Type 0} (P : D → Type ℓ) (m : Action D A) (f : A → Action D B) (d : D)
      → P (m d).1
      → ((a : A) (d' : D) → P d' → P (f a d').1)
      → P ((m >>= f) d).1
  >>=_keeps P m f d first second = elim (Result-cases (m d).0) [
    | inl (a, e) ↦
        let done : m d ≡ (ok a, (m d).1) = ground arith in rw (done, ◌>>=◌) (second a (m d).1 first)
    | inr (r, e) ↦ let done : m d ≡ (err r, (m d).1) = ground arith in rw (done, ◌>>=◌) first
  ]
