-- ===== src/Base/Dict.antt =====
-- A Go map keyed by texts, as an association list. Go leaves the order of an iteration open; the
-- list fixes one.
use Prim.Native.Nat.{suc, ◌+◌, ◌≤◌}
use Prim.Native.String.{String}
use mathlib.Core.Path.{◌≡◌, refl}
use mathlib.Core.Bool.{Bool, true, false}
use mathlib.Core.Option.{Option, none, some}
use mathlib.Core.List.{List, [], ◌∷◌}
use native.Mathlib.Omega.{arith}
use text.Mathlib.TextEquality.{eq_iff}
use classing_backend.Base.Tests.{if◌then◌else◌, ◌==◌, string_eq}
use classing_backend.Base.Lists.{length}

module _ {ℓ} {V : Type ℓ} where
  abbrev pub lookup : String → List (String × V) → Option V
  lookup k [] = none
  lookup k ((j, v) ∷ d) = if j == k then some v else lookup k d

  abbrev pub contains : String → List (String × V) → Bool
  contains k [] = false
  contains k ((j, v) ∷ d) = if j == k then true else contains k d

  -- d[k] = v
  abbrev pub insert : String → V → List (String × V) → List (String × V)
  insert k v [] = (k, v) ∷ []
  insert k v ((j, w) ∷ d) = if j == k then (k, v) ∷ d else (j, w) ∷ insert k v d

  -- delete(d, k)
  abbrev pub erase : String → List (String × V) → List (String × V)
  erase k [] = []
  erase k ((j, w) ∷ d) = let rest = erase k d in if j == k then rest else (j, w) ∷ rest

  -- No key stands twice.
  abbrev pub Distinct : List (String × V) → Type 0
  Distinct [] = Unit {0}
  Distinct ((k, v) ∷ d) = (contains k d ≡ false) × Distinct d

  pub lookup-insert :
      (k j : String) (v : V) (d : List (String × V))
      → lookup j (insert k v d) ≡ (if k == j then some v else lookup j d)
  lookup-insert k j v [] = refl
  lookup-insert k j v ((i, w) ∷ d) =
      ground (arith, eq_iff k j, eq_iff i k, eq_iff i j, lookup-insert k j v d)

  pub lookup-erase :
      (k j : String) (d : List (String × V))
      → lookup j (erase k d) ≡ (if k == j then none else lookup j d)
  lookup-erase k j [] = ground arith
  lookup-erase k j ((i, w) ∷ d) =
      ground (arith, eq_iff k j, eq_iff i k, eq_iff i j, lookup-erase k j d)

  pub contains-insert :
      (k j : String) (v : V) (d : List (String × V))
      → contains j (insert k v d) ≡ (if k == j then true else contains j d)
  contains-insert k j v [] = refl
  contains-insert k j v ((i, w) ∷ d) =
      ground (arith, eq_iff k j, eq_iff i k, eq_iff i j, contains-insert k j v d)

  pub contains-erase :
      (k j : String) (d : List (String × V))
      → contains j (erase k d) ≡ (if k == j then false else contains j d)
  contains-erase k j [] = ground arith
  contains-erase k j ((i, w) ∷ d) =
      ground (arith, eq_iff k j, eq_iff i k, eq_iff i j, contains-erase k j d)

  pub contains-eq-none :
      (k : String) (d : List (String × V)) → contains k d ≡ false → lookup k d ≡ none
  contains-eq-none k [] h = refl
  contains-eq-none k ((i, w) ∷ d) h = ground (arith, contains-eq-none k d)

  pub contains_of_lookup :
      (k : String) (v : V) (d : List (String × V)) → lookup k d ≡ some v → contains k d ≡ true
  contains_of_lookup k v [] h = cc
  contains_of_lookup k v ((i, w) ∷ d) h = ground (arith, contains_of_lookup k v d)

  pub insert-Distinct :
      (k : String) (v : V) (d : List (String × V)) → Distinct d → Distinct (insert k v d)
  insert-Distinct k v [] h = (refl, tt)
  insert-Distinct k v ((i, w) ∷ d) h =
      ground (arith, eq_iff i k, eq_iff k i, contains-insert k i v d, insert-Distinct k v d h.1)

  pub erase-Distinct : (k : String) (d : List (String × V)) → Distinct d → Distinct (erase k d)
  erase-Distinct k [] h = tt
  erase-Distinct k ((i, w) ∷ d) h =
      ground (arith, eq_iff k i, contains-erase k i d, erase-Distinct k d h.1)

  pub length-insert-le :
      (k : String) (v : V) (d : List (String × V)) → length (insert k v d) ≤ length d + 1
  length-insert-le k v [] = omega arith
  length-insert-le k v ((i, w) ∷ d) = ground (arith, length-insert-le k v d)

  pub length-insert_old :
      (k : String) (v : V) (d : List (String × V))
      → contains k d ≡ true
      → length (insert k v d) ≡ length d
  length-insert_old k v [] h = cc
  length-insert_old k v ((i, w) ∷ d) h = ground (arith, length-insert_old k v d)

  pub length-erase-le : (k : String) (d : List (String × V)) → length (erase k d) ≤ length d
  length-erase-le k [] = omega arith
  length-erase-le k ((i, w) ∷ d) = ground (arith, length-erase-le k d)

  pub length-erase_self :
      (k : String) (d : List (String × V))
      → contains k d ≡ true
      → suc (length (erase k d)) ≤ length d
  length-erase_self k [] h = cc
  length-erase_self k ((i, w) ∷ d) h = ground (arith, length-erase_self k d, length-erase-le k d)
