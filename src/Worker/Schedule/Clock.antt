-- ===== src/Worker/Schedule/Clock.antt =====
-- A time of day that is stored is read as its minute of the day.
use Prim.Native.String.{◌++◌ as concat}
use classing_backend.Base.{
  ℕ, zero, suc, ◌/◌, ◌%◌, ◌≡◌, ◌<◌, ◌∙◌, ap, sym, refl, String, Bool, true, false, ◌&&◌, ◌||◌,
  Option, some, none, arith, inl, inr, Bool-cases, leb, ltb, ◌==◌, nat_eq, string_eq, eq_of_beq,
}
use classing_backend.Base.Int.{ℤ, pos, negsuc, is_nat}
use classing_backend.Base.Decimal.{parse_int, format_padded, format_int}
use classing_backend.Base.Text.{split_on, char_of}
use classing_backend.Worker.Mail.Clock.{all_below, all_below_holds}
use classing_backend.Worker.Schedule.{delivery_minute}

-- The text hh:mm of a minute of the day.
unfoldable pub clock_text : ℕ → String
clock_text m = concat (format_padded 2 (m / 60)) (concat ":" (format_padded 2 (m % 60)))

-- Whether a test holds for some number below `n`.
unfoldable pub some_below : ℕ → (ℕ → Bool) → Bool
some_below zero p = false
some_below (suc n) p = let rest = some_below n p in p n || rest

pub some_below_found :
    (n : ℕ) (p : ℕ → Bool) → some_below n p ≡ true → (m : ℕ) × (m < n) × (p m ≡ true)
unfolding some_below
some_below_found zero p h = absurd (ground arith)
some_below_found (suc n) p h = elim (Bool-cases (p n)) [
  | inl e ↦ (n, omega arith, e)
  | inr e ↦ let (m, lt, t) = some_below_found n p (ground arith) in (m, omega (arith, lt), t)
]

-- Whether the text is a time of day after a minute, and one up to a minute.
abbrev pub is_later : ℕ → String → Bool
is_later now time = some_below 1440 (λ m. ltb now m && clock_text m == time)

abbrev pub is_reached : ℕ → String → Bool
is_reached now time = some_below 1440 (λ m. leb m now && clock_text m == time)

abbrev reads : Option ℤ → ℕ → Bool
reads none m = false
reads (some n) m = is_nat n m

read_back : (r : Option ℤ) (m : ℕ) → reads r m ≡ true → r ≡ some (pos m)
read_back none m h = absurd (ground arith)
read_back (some (pos n)) m h = ground arith
read_back (some (negsuc n)) m h = absurd (ground arith)

each_clock : all_below 1440 (λ m. reads (delivery_minute (clock_text m)) m) ≡ true
unfolding all_below delivery_minute clock_text format_padded format_int char_of split_on parse_int
each_clock = refl

delivery_minute-clock_text : (m : ℕ) → m < 1440 → delivery_minute (clock_text m) ≡ some (pos m)
delivery_minute-clock_text m lt =
    read_back (delivery_minute (clock_text m)) m
      (all_below_holds 1440 (λ m. reads (delivery_minute (clock_text m)) m) m each_clock lt)

pub later-minute :
    (now : ℕ) (time : String)
    → is_later now time ≡ true
    → (m : ℕ) × (now < m) × (delivery_minute time ≡ some (pos m))
later-minute now time h =
    let (m, lt, t) = some_below_found 1440 (λ m. ltb now m && clock_text m == time) h in
    (
      m,
      ground (arith, t),
      ap delivery_minute (sym (eq_of_beq (clock_text m) time (ground (arith, t))))
          ∙ delivery_minute-clock_text m lt,
    )

pub reached-minute :
    (now : ℕ) (time : String)
    → is_reached now time ≡ true
    → (m : ℕ) × (leb m now ≡ true) × (delivery_minute time ≡ some (pos m))
reached-minute now time h =
    let (m, lt, t) = some_below_found 1440 (λ m. leb m now && clock_text m == time) h in
    (
      m,
      ground (arith, t),
      ap delivery_minute (sym (eq_of_beq (clock_text m) time (ground (arith, t))))
          ∙ delivery_minute-clock_text m lt,
    )
