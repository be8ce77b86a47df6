-- ===== src/Base/Everywhere.antt =====
-- A property of every row of a table, under the statements that change the table.
use mathlib.Core.Path.{◌≡◌, refl}
use mathlib.Core.Logic.{inl, inr}
use mathlib.Core.Bool.{Bool, true}
use mathlib.Core.Option.{some}
use mathlib.Core.List.{Memᴰ, List, [], ◌∷◌, ◌++◌}
use native.Mathlib.Omega.{arith}
use classing_backend.Base.Lists.{All}
use classing_backend.Base.Tests.{Bool-cases}
use classing_backend.Base.Table.{select_one, update_where, delete_where, select_where}

module _ {ℓ κ} {A : Type ℓ} (P : A → Type κ) where
  pub All-insert : (rows : List A) (row : A) → All P rows → P row → All P (rows ++ row ∷ [])
  All-insert [] row a h = (h, tt)
  All-insert (x ∷ rows) row a h = (a.0, All-insert rows row a.1 h)

  pub All-update_where :
      (q : A → Bool) (f : A → A) (rows : List A)
      → All P rows
      → ((r : A) → q r ≡ true → P r → P (f r))
      → All P (update_where q f rows)
  All-update_where q f [] a h = tt
  All-update_where q f (x ∷ rows) a h = elim (Bool-cases (q x)) [
    | inl e ↦ rw e (h x e a.0, All-update_where q f rows a.1 h)
    | inr e ↦ rw e (a.0, All-update_where q f rows a.1 h)
  ]

  pub All-delete_where : (q : A → Bool) (rows : List A) → All P rows → All P (delete_where q rows)
  All-delete_where q [] a = tt
  All-delete_where q (x ∷ rows) a = elim (Bool-cases (q x)) [
    | inl e ↦ rw e (All-delete_where q rows a.1)
    | inr e ↦ rw e (a.0, All-delete_where q rows a.1)
  ]

  pub All-select_where : (q : A → Bool) (rows : List A) → All P rows → All P (select_where q rows)
  All-select_where q [] a = tt
  All-select_where q (x ∷ rows) a = elim (Bool-cases (q x)) [
    | inl e ↦ rw e (a.0, All-select_where q rows a.1)
    | inr e ↦ rw e (All-select_where q rows a.1)
  ]

  pub All-select_one :
      (q : A → Bool) (rows : List A) (r : A) → All P rows → select_one q rows ≡ some r → P r
  All-select_one q [] r a e = absurd (ground arith)
  All-select_one q (x ∷ rows) r a e = elim (Bool-cases (q x)) [
    | inl t ↦ let same : x ≡ r = ground arith in rw (← same) a.0
    | inr t ↦ All-select_one q rows r a.1 (ground arith)
  ]

pub All-selected {ℓ} :
    {A : Type ℓ} (q : A → Bool) (rows : List A) → All (λ r. q r ≡ true) (select_where q rows)
All-selected q [] = tt
All-selected q (x ∷ rows) = elim (Bool-cases (q x)) [
  | inl e ↦ rw e (e, All-selected q rows)
  | inr e ↦ rw e (All-selected q rows)
]

pub All-imp {ℓ κ ν} :
    {A : Type ℓ} (P : A → Type κ) (Q : A → Type ν) (rows : List A)
    → ((r : A) → P r → Q r)
    → All P rows
    → All Q rows
All-imp P Q [] h a = tt
All-imp P Q (x ∷ rows) h a = (h x a.0, All-imp P Q rows h a.1)

-- Each row is one of the rows.
pub All-Memᴰ {ℓ} : {A : Type ℓ} (rows : List A) → All (λ r. Memᴰ r rows) rows
All-Memᴰ [] = tt
All-Memᴰ (x ∷ rows) = (
  Memᴰ.head refl,
  All-imp (λ r. Memᴰ r rows) (λ r. Memᴰ r (x ∷ rows)) rows (λ r m. Memᴰ.tail m) (All-Memᴰ rows),
)
