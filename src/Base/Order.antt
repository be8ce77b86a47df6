-- ===== src/Base/Order.antt =====
-- ORDER BY, LIMIT and OFFSET, and Go's sort.SliceStable: a stable sort of a list by a test that says
-- whether one element comes before another.
use Prim.Native.Nat.{ℕ, zero, suc, ◌+◌, ◌≤◌}
use mathlib.Core.Path.{◌≡◌, refl, sym, ap, subst, ◌∙◌}
use mathlib.Core.Bool.{Bool, true, false}
use mathlib.Core.Option.{Option, none, some}
use mathlib.Core.List.{List, [], ◌∷◌}
use mathlib.Core.Logic.{inl, inr}
use native.Mathlib.Omega.{arith}
use classing_backend.Base.Lists.{All, take}
use classing_backend.Base.Tests.{if◌then◌else◌, Bool-cases}
use classing_backend.Base.Table.{count_where}

abbrev pub drop {ℓ} : {A : Type ℓ} → ℕ → List A → List A
drop zero xs = xs
drop (suc n) [] = []
drop (suc n) (x ∷ xs) = drop n xs

-- LIMIT limit OFFSET offset
abbrev pub page {ℓ} : {A : Type ℓ} → ℕ → ℕ → List A → List A
page limit offset xs = take limit (drop offset xs)

abbrev pub head? {ℓ} : {A : Type ℓ} → List A → Option A
head? [] = none
head? (x ∷ xs) = some x

module _ {ℓ} {A : Type ℓ} (before : A → A → Bool) where
  -- An element stands before those that it ties with, which come after it in the list.
  unfoldable pub insert_by : A → List A → List A
  insert_by x [] = x ∷ []
  insert_by x (y ∷ ys) = let rest = insert_by x ys in if before y x then y ∷ rest else x ∷ y ∷ ys

  unfoldable pub order_by : List A → List A
  unfolding insert_by
  order_by [] = []
  order_by (x ∷ xs) = insert_by x (order_by xs)

  -- The head does not come after any element of the tail, and so on.
  abbrev pub IsOrdered : List A → Type 0
  IsOrdered [] = Unit
  IsOrdered (x ∷ xs) = All (λ y. before y x ≡ false) xs × IsOrdered xs

  count_where-insert_by :
      (p : A → Bool) (x : A) (xs : List A)
      → count_where p (insert_by x xs) ≡ (if p x then 1 else 0) + count_where p xs
  unfolding insert_by
  count_where-insert_by p x [] = refl
  count_where-insert_by p x (y ∷ ys) = ground (arith, count_where-insert_by p x ys)

  -- Sorting keeps the rows, each as often.
  pub count_where-order_by :
      (p : A → Bool) (xs : List A) → count_where p (order_by xs) ≡ count_where p xs
  unfolding order_by
  count_where-order_by p [] = refl
  count_where-order_by p (x ∷ xs) =
      ground (arith, count_where-insert_by p x (order_by xs), count_where-order_by p xs)

  All-insert_by {κ} :
      (P : A → Type κ) (x : A) (xs : List A) → P x → All P xs → All P (insert_by x xs)
  unfolding insert_by
  All-insert_by P x [] h t = (h, tt)
  All-insert_by P x (y ∷ ys) h t = elim (Bool-cases (before y x)) [
    | inl e ↦ rw e (t.0, All-insert_by P x ys h t.1)
    | inr e ↦ rw e (h, t)
  ]

  pub All-order_by {κ} : (P : A → Type κ) (xs : List A) → All P xs → All P (order_by xs)
  unfolding order_by
  All-order_by P [] t = tt
  All-order_by P (x ∷ xs) t = All-insert_by P x (order_by xs) t.0 (All-order_by P xs t.1)

  module _ (asymmetric : (x y : A) → before x y ≡ true → before y x ≡ false)
      (transitive : (x y z : A)
        → before y x ≡ false
        → before z y ≡ false
        → before z x ≡ false) where
    All-not_before :
        (x y : A) (ys : List A)
        → before y x ≡ false
        → All (λ z. before z y ≡ false) ys
        → All (λ z. before z x ≡ false) ys
    All-not_before x y [] h t = tt
    All-not_before x y (z ∷ zs) h t = (transitive x y z h t.0, All-not_before x y zs h t.1)

    insert_by-IsOrdered : (x : A) (xs : List A) → IsOrdered xs → IsOrdered (insert_by x xs)
    unfolding insert_by
    insert_by-IsOrdered x [] o = (tt, tt)
    insert_by-IsOrdered x (y ∷ ys) o = elim (Bool-cases (before y x)) [
      | inl e ↦ rw e (
        All-insert_by (λ z. before z y ≡ false) x ys (asymmetric y x e) o.0,
        insert_by-IsOrdered x ys o.1,
      )
      | inr e ↦ rw e ((e, All-not_before x y ys e o.0), o)
    ]

    pub order_by-IsOrdered : (xs : List A) → IsOrdered (order_by xs)
    unfolding order_by
    order_by-IsOrdered [] = tt
    order_by-IsOrdered (x ∷ xs) = insert_by-IsOrdered x (order_by xs) (order_by-IsOrdered xs)

    -- Nothing comes before the head of a sorted list.
    pub head?-order_by :
        (xs : List A) (h : A) → head? (order_by xs) ≡ some h → count_where (λ y. before y h) xs ≡ 0
    head?-order_by xs h e =
        sym (count_where-order_by (λ y. before y h) xs)
        ∙ least (order_by xs) (order_by-IsOrdered xs) e
      where
        none_before :
            (ys : List A) → All (λ y. before y h ≡ false) ys → count_where (λ y. before y h) ys ≡ 0
        none_before [] a = refl
        none_before (y ∷ ys) a = ground (arith, none_before ys a.1)

        least :
            (ys : List A) → IsOrdered ys → head? ys ≡ some h → count_where (λ y. before y h) ys ≡ 0
        least [] o e = refl
        least (y ∷ ys) o e =
            let same : y ≡ h = ground arith in
            let rest : All (λ z. before z h ≡ false) ys =
              subst (λ k. All (λ z. before z k ≡ false) ys) same o.0 in
            ground (arith, asymmetric h h, ap (λ k. before k h) same, none_before ys rest)

  -- The head of a sorted list is one of its elements, and the list is empty if there is none.
  pub head?-order_by_passes :
      (p : A → Bool) (xs : List A) (h : A)
      → All (λ y. p y ≡ true) xs
      → head? (order_by xs) ≡ some h
      → p h ≡ true
  head?-order_by_passes p xs h a e = first (order_by xs) (All-order_by (λ y. p y ≡ true) xs a) e
    where
      first : (ys : List A) → All (λ y. p y ≡ true) ys → head? ys ≡ some h → p h ≡ true
      first [] a e = absurd (ground arith)
      first (y ∷ ys) a e = let same : y ≡ h = ground arith in rw (← same) a.0

  -- What holds for each element holds for the head of the sorted list.
  pub head?-order_by_all {κ} :
      (P : A → Type κ) (xs : List A) (h : A) → All P xs → head? (order_by xs) ≡ some h → P h
  head?-order_by_all P xs h a e = first (order_by xs) (All-order_by P xs a) e
    where
      first : (ys : List A) → All P ys → head? ys ≡ some h → P h
      first [] a e = absurd (ground arith)
      first (y ∷ ys) a e = let same : y ≡ h = ground arith in rw (← same) a.0

  -- A sorted list has a head unless the list is empty, and the head counts among the elements.
  pub head?-order_by-none :
      (p : A → Bool) (xs : List A) → head? (order_by xs) ≡ none → count_where p xs ≡ 0
  head?-order_by-none p xs e = sym (count_where-order_by p xs) ∙ nothing (order_by xs) e
    where
      nothing : (ys : List A) → head? ys ≡ none → count_where p ys ≡ 0
      nothing [] e = refl
      nothing (y ∷ ys) e = absurd (ground arith)

  pub head?-order_by_counted :
      (p : A → Bool) (xs : List A) (h : A)
      → head? (order_by xs) ≡ some h
      → p h ≡ true
      → 1 ≤ count_where p xs
  head?-order_by_counted p xs h e t =
      subst (λ k. 1 ≤ k) (count_where-order_by p xs) (some_counted (order_by xs) e)
    where
      some_counted : (ys : List A) → head? ys ≡ some h → 1 ≤ count_where p ys
      some_counted [] e = absurd (ground arith)
      some_counted (y ∷ ys) e =
          let same : y ≡ h = ground arith in let q : p y ≡ true = ap p same ∙ t in ground arith

-- A list that is sorted by one test is in the order of a coarser one.
module _ {ℓ} {A : Type ℓ} (fine coarse : A → A → Bool)
    (later : (x y : A) → fine y x ≡ true → coarse x y ≡ false)
    (earlier : (x y : A) → fine y x ≡ false → coarse y x ≡ false)
    (transitive : (x y z : A) → coarse y x ≡ false → coarse z y ≡ false → coarse z x ≡ false) where
  coarse_insert_by :
      (x : A) (xs : List A) → IsOrdered coarse xs → IsOrdered coarse (insert_by fine x xs)
  unfolding insert_by
  coarse_insert_by x [] o = (tt, tt)
  coarse_insert_by x (y ∷ ys) o = elim (Bool-cases (fine y x)) [
    | inl e ↦ rw e (
      All-insert_by fine (λ z. coarse z y ≡ false) x ys (later x y e) o.0,
      coarse_insert_by x ys o.1,
    )
    | inr e ↦ rw e ((earlier x y e, rest y (earlier x y e) ys o.0), o)
  ]
    where
      rest :
          (y : A)
          → coarse y x ≡ false
          → (zs : List A) → All (λ z. coarse z y ≡ false) zs
          → All (λ z. coarse z x ≡ false) zs
      rest y h [] t = tt
      rest y h (z ∷ zs) t = (transitive x y z h t.0, rest y h zs t.1)

  pub coarse_order_by : (xs : List A) → IsOrdered coarse (order_by fine xs)
  unfolding order_by
  coarse_order_by [] = tt
  coarse_order_by (x ∷ xs) = coarse_insert_by x (order_by fine xs) (coarse_order_by xs)
