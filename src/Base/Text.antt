-- ===== src/Base/Text.antt =====
-- The functions of Go's package strings that the program calls. `to_upper` and `to_lower` map the
-- ASCII letters and keep every other character, where Go also maps letters beyond ASCII.
use Prim.Native.Nat.{ℕ, ◌+◌, ◌-◌, ◌<◌, compare, Ordering}
use Prim.Native.Char.{Char, char, code, IsScalar}
use Prim.Native.String.{String, count, len}
use mathlib.Core.Path.{◌≡◌}
use mathlib.Core.Logic.{dite}
use mathlib.Core.Bool.{Bool, true, false, ◌&&◌, ◌||◌}
use mathlib.Core.List.{List, [], ◌∷◌}
use native.Mathlib.Omega.{arith}
use native.Mathlib.Decide.{dec_lt}
use classing_backend.Base.Tests.{leb, ◌==◌, nat_eq, string_eq, if◌then◌else◌}

-- unicode.IsSpace: the characters with the property White_Space.
abbrev pub is_space : ℕ → Bool
is_space c =
    (leb 9 c && leb c 13)
    || c == 0x20
    || c == 0x85
    || c == 0xa0
    || c == 0x1680
    || (leb 0x2000 c && leb c 0x200a)
    || c == 0x2028
    || c == 0x2029
    || c == 0x202f
    || c == 0x205f
    || c == 0x3000

abbrev trim_left : String → String
trim_left String.[] = String.[]
trim_left (String.◌∷◌ c s) =
    let rest = trim_left s in if is_space (code c) then rest else String.◌∷◌ c s

abbrev trim_right : String → String
trim_right String.[] = String.[]
trim_right (String.◌∷◌ c s) =
    let rest = trim_right s in
    if is_space (code c) && rest == "" then String.[] else String.◌∷◌ c rest

-- strings.TrimSpace
unfoldable pub trim_space : String → String
trim_space s = trim_right (trim_left s)

scalar_of_lt : (n : ℕ) → n < 55296 → IsScalar n
scalar_of_lt n h = let e : compare n 55296 ≡ Ordering.lt = ground arith in rw e tt

-- The character with the number `n`, where that is a small one.
unfoldable pub char_of : ℕ → Char → Char
unfolding dec_lt scalar_of_lt
char_of n default = dite (dec_lt n 55296) (λ h. char n (scalar_of_lt n h)) (λ _. default)

abbrev lower_char : Char → Char
lower_char c = if leb b'A' (code c) && leb (code c) b'Z' then char_of (code c + 32) c else c

abbrev upper_char : Char → Char
upper_char c = if leb b'a' (code c) && leb (code c) b'z' then char_of (code c - 32) c else c

-- strings.ToLower
unfoldable pub to_lower : String → String
unfolding char_of
to_lower String.[] = String.[]
to_lower (String.◌∷◌ c s) = String.◌∷◌ (lower_char c) (to_lower s)

-- strings.ToUpper
unfoldable pub to_upper : String → String
unfolding char_of
to_upper String.[] = String.[]
to_upper (String.◌∷◌ c s) = String.◌∷◌ (upper_char c) (to_upper s)

-- strings.EqualFold
unfoldable pub equal_fold : String → String → Bool
equal_fold s t = to_lower s == to_lower t

-- The number of runes of a text, and of its bytes.
abbrev pub rune_count : String → ℕ
rune_count s = count s

abbrev pub byte_count : String → ℕ
byte_count s = len s

-- The SQL operator LIKE: `%` stands for any text and `_` for any character. There is no escape.
unfoldable pub like : String → String → Bool
like String.[] String.[] = true
like String.[] (String.◌∷◌ c s) = false
like (String.◌∷◌ m p) String.[] = code m == b'%' && like p String.[]
like (String.◌∷◌ m p) (String.◌∷◌ c s) =
    let longer = like (String.◌∷◌ m p) s in
    let matched = like p (String.◌∷◌ c s) in
    let next = like p s in
    if code m == b'%' then matched || longer else (code m == b'_' || code m == code c) && next

-- A character before the first of the parts.
abbrev before_first : Char → List String → List String
before_first c [] = String.◌∷◌ c String.[] ∷ []
before_first c (p ∷ ps) = String.◌∷◌ c p ∷ ps

-- strings.Split at a mark of one character
unfoldable pub split_on : ℕ → String → List String
split_on mark String.[] = String.[] ∷ []
split_on mark (String.◌∷◌ c s) =
    let parts = split_on mark s in
    if code c == mark then String.[] ∷ parts else before_first c parts
