-- ===== src/Base/Decimal.antt =====
-- Go's decimal numbers in texts: strconv.FormatInt and the verb %0nd of fmt, for numbers that are not
-- negative.
use Prim.Native.Nat.{ℕ, zero, suc, ◌+◌, ◌-◌, ◌*◌, ◌/◌, ◌%◌}
use Prim.Native.String.{String, count}
use Prim.Native.String.{◌++◌ as concat}
use classing_backend.Base.Tests.{ltb, leb, if◌then◌else◌, ◌==◌, nat_eq}
use classing_backend.Base.Int.{ℤ, pos, negated}
use mathlib.Core.Bool.{◌&&◌}
use mathlib.Core.Option.{Option, none, some}
use Prim.Native.Char.{code}
use classing_backend.Base.Text.{char_of}

digit_text : ℕ → String
unfolding char_of
digit_text d = String.◌∷◌ (char_of (b'0' + d) "0") String.[]

-- The digits of `n` before `rest`; a number has fewer digits than its successor.
format_digits : ℕ → ℕ → String → String
unfolding digit_text
format_digits zero n rest = rest
format_digits (suc fuel) n rest =
    let more = format_digits fuel (n / 10) (concat (digit_text (n % 10)) rest) in
    if ltb n 10 then concat (digit_text n) rest else more

unfoldable pub format_int : ℕ → String
unfolding format_digits digit_text
format_int n = format_digits (suc n) n ""

zeros : ℕ → String
zeros zero = ""
zeros (suc n) = concat "0" (zeros n)

unfoldable pub format_padded : ℕ → ℕ → String
unfolding format_int zeros
format_padded width n = let digits = format_int n in concat (zeros (width - count digits)) digits

-- The number that starts with the digits of `n` and goes on with those of a text.
read_digits : ℕ → String → Option ℕ
read_digits n String.[] = some n
read_digits n (String.◌∷◌ c s) =
    let rest = read_digits (n * 10 + (code c - b'0')) s in
    if leb b'0' (code c) && leb (code c) b'9' then rest else none

unsigned : String → Option ℕ
unfolding read_digits
unsigned String.[] = none
unsigned (String.◌∷◌ c s) = read_digits 0 (String.◌∷◌ c s)

-- strconv.Atoi, on texts whose number fits an int64
unfoldable pub parse_int : String → Option ℤ
unfolding unsigned
parse_int String.[] = none
parse_int (String.◌∷◌ c s) =
    if code c == b'-'
    then (elim (unsigned s) [ none ↦ none | some n ↦ some (negated n) ])
    else if code c == b'+'
    then (elim (unsigned s) [ none ↦ none | some n ↦ some (pos n) ])
    else (elim (unsigned (String.◌∷◌ c s)) [ none ↦ none | some n ↦ some (pos n) ])
