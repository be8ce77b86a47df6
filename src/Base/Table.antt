-- ===== src/Base/Table.antt =====
-- A database table as the list of its rows, in the order in which a query without ORDER BY returns
-- them, and the SQL statements that the store issues as list functions.
use Prim.Native.Nat.{ℕ, ◌+◌, ◌≤◌}
use mathlib.Core.Path.{◌≡◌, refl, ◌∙◌}
use mathlib.Core.Bool.{Bool, true, false, not, ◌&&◌}
use mathlib.Core.Option.{Option, none, some}
use mathlib.Core.List.{List, [], ◌∷◌, ◌++◌}
use native.Mathlib.Omega.{arith}
use classing_backend.Base.Tests.{if◌then◌else◌}

module _ {ℓ} {A : Type ℓ} where
  -- SELECT * FROM rows WHERE p LIMIT 1
  abbrev pub select_one : (A → Bool) → List A → Option A
  select_one p [] = none
  select_one p (r ∷ rs) = if p r then some r else select_one p rs

  -- SELECT COUNT(*) FROM rows WHERE p, and the rows that an UPDATE ... WHERE p affects
  abbrev pub count_where : (A → Bool) → List A → ℕ
  count_where p [] = 0
  count_where p (r ∷ rs) = (if p r then 1 else 0) + count_where p rs

  -- UPDATE rows SET r = f r WHERE p
  abbrev pub update_where : (A → Bool) → (A → A) → List A → List A
  update_where p f [] = []
  update_where p f (r ∷ rs) = (if p r then f r else r) ∷ update_where p f rs

  -- DELETE FROM rows WHERE p
  abbrev pub delete_where : (A → Bool) → List A → List A
  delete_where p [] = []
  delete_where p (r ∷ rs) = let rest = delete_where p rs in if p r then rest else r ∷ rest

  -- SELECT * FROM rows WHERE p
  abbrev pub select_where : (A → Bool) → List A → List A
  select_where p [] = []
  select_where p (r ∷ rs) = let rest = select_where p rs in if p r then r ∷ rest else rest

  -- What an UPDATE makes of one row.
  abbrev pub updated : (A → Bool) → (A → A) → A → A
  updated p f r = if p r then f r else r

  pub select_one-append :
      (p : A → Bool) (xs ys : List A)
      → select_one p (xs ++ ys)
        ≡ (elim (select_one p xs) [ none ↦ select_one p ys | some r ↦ some r ])
  select_one-append p [] ys = refl
  select_one-append p (x ∷ xs) ys = ground (arith, select_one-append p xs ys)

  pub count_where-append :
      (p : A → Bool) (xs ys : List A)
      → count_where p (xs ++ ys) ≡ count_where p xs + count_where p ys
  count_where-append p [] ys = omega arith
  count_where-append p (x ∷ xs) ys = omega (arith, count_where-append p xs ys)

  -- An UPDATE that leaves the test alone changes the row that is found.
  pub select_one-update_where :
      (p q : A → Bool) (f : A → A) (rows : List A)
      → ((r : A) → p (f r) ≡ p r)
      → select_one p (update_where q f rows)
        ≡ (elim (select_one p rows) [ none ↦ none | some r ↦ some (updated q f r) ])
  select_one-update_where p q f [] h = refl
  select_one-update_where p q f (x ∷ rows) h =
      ground (arith, h x, select_one-update_where p q f rows h)

  pub count_where-update_where :
      (p q : A → Bool) (f : A → A) (rows : List A)
      → count_where p (update_where q f rows) ≡ count_where (λ r. p (updated q f r)) rows
  count_where-update_where p q f [] = refl
  count_where-update_where p q f (x ∷ rows) = omega (arith, count_where-update_where p q f rows)

  pub count_where_congr :
      (p q : A → Bool) (rows : List A)
      → ((r : A) → p r ≡ q r)
      → count_where p rows ≡ count_where q rows
  count_where_congr p q [] h = refl
  count_where_congr p q (x ∷ rows) h = ground (arith, h x, count_where_congr p q rows h)

  pub count_where_none :
      (p : A → Bool) (rows : List A) → ((r : A) → p r ≡ false) → count_where p rows ≡ 0
  count_where_none p [] h = refl
  count_where_none p (x ∷ rows) h = ground (arith, h x, count_where_none p rows h)

  pub count_where_mono :
      (p q : A → Bool) (rows : List A)
      → ((r : A) → p r ≡ true → q r ≡ true)
      → count_where p rows ≤ count_where q rows
  count_where_mono p q [] h = omega arith
  count_where_mono p q (x ∷ rows) h = ground (arith, h x, count_where_mono p q rows h)

  -- The row that is found passes the test, and is counted.
  pub select_one_passes :
      (p : A → Bool) (rows : List A) (r : A)
      → select_one p rows ≡ some r
      → (p r ≡ true) × (1 ≤ count_where p rows)
  select_one_passes p [] r e = cc
  select_one_passes p (x ∷ rows) r e = ground (arith, select_one_passes p rows r)

  pub count_where-update_none :
      (p q : A → Bool) (f : A → A) (rows : List A)
      → ((r : A) → p (updated q f r) ≡ false)
      → count_where p (update_where q f rows) ≡ 0
  count_where-update_none p q f rows h =
      count_where-update_where p q f rows ∙ count_where_none (λ r. p (updated q f r)) rows h

  pub count_where-update_same :
      (p q : A → Bool) (f : A → A) (rows : List A)
      → ((r : A) → p (updated q f r) ≡ p r)
      → count_where p (update_where q f rows) ≡ count_where p rows
  count_where-update_same p q f rows h =
      count_where-update_where p q f rows ∙ count_where_congr (λ r. p (updated q f r)) p rows h

  pub count_where_split :
      (p q : A → Bool) (rows : List A)
      → count_where p rows ≤ count_where (λ r. p r && not (q r)) rows + count_where q rows
  count_where_split p q [] = omega arith
  count_where_split p q (x ∷ rows) = ground (arith, count_where_split p q rows)

  -- Where no row is found, none is counted.
  pub select_one-none :
      (p : A → Bool) (rows : List A) → select_one p rows ≡ none → count_where p rows ≡ 0
  select_one-none p [] e = refl
  select_one-none p (x ∷ rows) e = ground (arith, select_one-none p rows)

  -- An UPDATE of rows that a test does not find leaves what it finds.
  pub select_one-update_other :
      (p q : A → Bool) (f : A → A) (rows : List A)
      → ((r : A) → p (f r) ≡ p r)
      → ((r : A) → p r ≡ true → q r ≡ false)
      → select_one p (update_where q f rows) ≡ select_one p rows
  select_one-update_other p q f [] h k = refl
  select_one-update_other p q f (x ∷ rows) h k =
      ground (arith, h x, k x, select_one-update_other p q f rows h k)

  -- An INSERT adds what a test finds, or does not matter to it.
  pub select_one-insert_new :
      (p : A → Bool) (rows : List A) (row : A)
      → select_one p rows ≡ none
      → p row ≡ true
      → select_one p (rows ++ row ∷ []) ≡ some row
  select_one-insert_new p rows row e h = ground (arith, select_one-append p rows (row ∷ []))

  pub select_one-insert_other :
      (p : A → Bool) (rows : List A) (row : A)
      → p row ≡ false
      → select_one p (rows ++ row ∷ []) ≡ select_one p rows
  select_one-insert_other p [] row h = ground arith
  select_one-insert_other p (x ∷ rows) row h = ground (arith, select_one-insert_other p rows row)

  -- Where no row is counted, a stricter test finds none.
  pub select_one_uncounted :
      (p q : A → Bool) (rows : List A)
      → ((r : A) → q r ≡ true → p r ≡ true)
      → count_where p rows ≡ 0
      → select_one q rows ≡ none
  select_one_uncounted p q [] h e = refl
  select_one_uncounted p q (x ∷ rows) h e = ground (arith, h x, select_one_uncounted p q rows h)

  -- The row that is found is counted by every test that it passes.
  pub select_one_counted :
      (p q : A → Bool) (rows : List A) (r : A)
      → select_one p rows ≡ some r
      → q r ≡ true
      → 1 ≤ count_where q rows
  select_one_counted p q [] r e h = cc
  select_one_counted p q (x ∷ rows) r e h = ground (arith, select_one_counted p q rows r)

  -- Counting among the selected rows, each of which passes.
  pub count_where-select_where :
      (p q : A → Bool) (rows : List A)
      → count_where p (select_where q rows) ≡ count_where (λ r. q r && p r) rows
  count_where-select_where p q [] = refl
  count_where-select_where p q (x ∷ rows) = ground (arith, count_where-select_where p q rows)

  -- Two tests that no row passes both, each stricter than a third.
  pub count_where_apart :
      (p q s : A → Bool) (rows : List A)
      → ((r : A) → p r ≡ true → s r ≡ true)
      → ((r : A) → q r ≡ true → s r ≡ true)
      → ((r : A) → p r ≡ true → q r ≡ false)
      → count_where p rows + count_where q rows ≤ count_where s rows
  count_where_apart p q s [] h k n = omega arith
  count_where_apart p q s (x ∷ rows) h k n =
      ground (arith, h x, k x, n x, count_where_apart p q s rows h k n)

  -- An UPDATE that sets every column of the rows that it finds.
  pub select_one-overwrite_same :
      (p q : A → Bool) (row : A) (rows : List A)
      → ((r : A) → q r ≡ p r)
      → p row ≡ true
      → 1 ≤ count_where p rows
      → select_one q (update_where p (λ _. row) rows) ≡ some row
  select_one-overwrite_same p q row [] h t n = absurd (omega arith)
  select_one-overwrite_same p q row (x ∷ rows) h t n =
      ground (arith, h x, h row, select_one-overwrite_same p q row rows h t)

  pub select_one-overwrite_other :
      (p q : A → Bool) (row : A) (rows : List A)
      → ((r : A) → q r ≡ true → p r ≡ false)
      → q row ≡ false
      → select_one q (update_where p (λ _. row) rows) ≡ select_one q rows
  select_one-overwrite_other p q row [] h f = refl
  select_one-overwrite_other p q row (x ∷ rows) h f =
      ground (arith, h x, select_one-overwrite_other p q row rows h f)
