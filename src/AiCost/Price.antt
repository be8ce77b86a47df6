-- ===== src/AiCost/Price.antt =====
-- Laws of the prices in internal/aicost/catalog.go.
use classing_backend.Base.{
  ℕ, ◌+◌, ◌-◌, ◌*◌, ◌/◌, ◌≤◌, ◌<◌, ◌^◌, min, max, ◌≡◌, ap, ◌⊎◌, inl, inr, String, none, some, List,
  [], ◌∷◌, arith, leb, if◌then◌else◌, string_eq, Option-cases,
}
use Prim.Native.String.count
use native.Mathlib.Nat.{mul-le-mul_left, mul-le-mul_right, sub-zero}
use classing_backend.Base.Text.{rune_count}
use classing_backend.Base.Int.{ℤ, pos, pos_part, ◌≤ℤ◌, max_ℤ}
use classing_backend.AiCost.{
  Model, TokenUsage, resolve, numerator, points, reservation_points, text_tokens, sum_tokens,
  estimate_tokens, ascii_count,
}

-- What the catalog's rates satisfy.
record IsPriced (m : Model) : Type 0 where
  cached_cheaper : m.cached_input_points ≤ m.uncached_input_points
  input_rate : m.uncached_input_points ≤ 39000
  output_rate : m.output_points ≤ 78000
  cached_rate : 1 ≤ m.cached_input_points
  output_pos : 1 ≤ m.output_points

resolve-IsPriced : (id : String) (m : Model) → resolve id ≡ some m → IsPriced m
unfolding resolve
resolve-IsPriced id m e = ground arith

-- A part at the lower rate and the rest at the higher cost no more than all at the higher.
rates_le :
    (part whole low high : ℕ)
    → part ≤ whole
    → low ≤ high
    → part * low + (whole - part) * high ≤ whole * high
rates_le part whole low high h k =
    let e : whole * high ≡ (part + (whole - part)) * high = ap (λ t. t * high) (omega arith) in
    omega (arith, mul-le-mul_left part k, e)

numerator-le :
    (m : Model) (u : TokenUsage) (input output : ℕ)
    → IsPriced m
    → pos_part u.input_tokens ≤ input
    → pos_part u.output_tokens ≤ output
    → numerator m u ≤ input * m.uncached_input_points + output * m.output_points
unfolding numerator
numerator-le m u input output p h k =
    let cached = min (pos_part u.input_tokens) (pos_part u.cached_input_tokens) in
    omega (
      arith,
      rates_le cached (pos_part u.input_tokens) m.cached_input_points m.uncached_input_points
          (omega arith) p.cached_cheaper,
      mul-le-mul_right m.uncached_input_points h,
      mul-le-mul_right m.output_points k,
    )

points-some :
    (id : String) (m : Model) (u : TokenUsage)
    → resolve id ≡ some m
    → points id u ≡ (if leb (numerator m u) 0 then 1 else (numerator m u + 999999) / 1000000)
unfolding points
points-some id m u e = rw (e, points)

-- A price of n millionths of a point, rounded up to whole points, and 1 for a price of 0.
abbrev rounded : ℕ → ℕ
rounded n = if leb n 0 then 1 else (n + 999999) / 1000000

rounded_mono : (a b : ℕ) → a ≤ b → rounded a ≤ rounded b
rounded_mono a b h = ground arith

-- For a model that the catalog knows, the points are the price rounded up: the least number of points
-- that is worth the price, and at least 1. A model that it does not know costs 0.
pub points_rounds_up :
    (id : String) (u : TokenUsage)
    → ((resolve id ≡ none) × (points id u ≡ 0))
      ⊎ ((m : Model) × (resolve id ≡ some m)
          × (1 ≤ points id u)
          × (numerator m u ≤ points id u * 1000000)
          × ((p : ℕ) → 1 ≤ p → numerator m u ≤ p * 1000000 → points id u ≤ p))
unfolding points
points_rounds_up id u = elim (Option-cases (resolve id)) [
  | inl e ↦ inl (e, rw (e, points))
  | inr (m, e) ↦ inr (
    m,
    e,
    rw (e, points) (ground arith),
    rw (e, points) (ground arith),
    rw (e, points) (λ p h k. ground arith),
  )
]

reserved_numerator :
    (m : Model) (a b : ℤ)
    → numerator m (record { input_tokens = a; cached_input_tokens = pos 0; output_tokens = b })
      ≡ pos_part a * m.uncached_input_points + pos_part b * m.output_points
unfolding numerator
reserved_numerator m a b =
    let e : min (pos_part a) 0 ≡ 0 = omega arith in rw (e, sub-zero) (omega arith)

-- max(1, b) is no less than a, if b is no less.
max_one : (a b : ℤ) → a ≤ℤ b → pos_part a ≤ pos_part (max_ℤ (pos 1) b)
max_one a b h = ground arith

-- A reservation is enough: whatever part of the input is served from the cache, a request that takes
-- no more input tokens than estimated and no more output tokens than allowed costs no more than was
-- reserved for it.
pub points-le-reservation_points :
    (id : String) (u : TokenUsage) (estimated most : ℤ)
    → u.input_tokens ≤ℤ estimated
    → u.output_tokens ≤ℤ most
    → points id u ≤ reservation_points id estimated most
unfolding reservation_points
points-le-reservation_points id u estimated most h k = elim (Option-cases (resolve id)) [
  | inl e ↦ unfold points in rw (e, points) (omega arith)
  | inr (m, e) ↦
      rw (points-some id m u e, points-some id m _ e)
        (rounded_mono _ _ (
          rw (reserved_numerator m (max_ℤ (pos 1) estimated) (max_ℤ (pos 1) most)) (
            numerator-le m u _ _ (resolve-IsPriced id m e) (max_one u.input_tokens estimated h)
              (max_one u.output_tokens most k))))
]

-- With at most 2 ^ 45 tokens in and out, the sum and the rounding stay below 2 ^ 63, so that Go's
-- int64 computes the same points.
pub numerator_fits :
    (id : String) (m : Model) (u : TokenUsage)
    → resolve id ≡ some m
    → pos_part u.input_tokens ≤ 2 ^ 45
    → pos_part u.output_tokens ≤ 2 ^ 45
    → numerator m u + 999999 < 2 ^ 63
numerator_fits id m u e h k =
    let p = resolve-IsPriced id m e in
    omega (
      arith,
      numerator-le m u (2 ^ 45) (2 ^ 45) p h k,
      mul-le-mul_left (2 ^ 45) p.input_rate,
      mul-le-mul_left (2 ^ 45) p.output_rate,
    )

ascii_count-le : (value : String) → ascii_count value ≤ rune_count value
ascii_count-le String.[] = omega arith
ascii_count-le (String.◌∷◌ c s) = ground (arith, ascii_count-le s, count.cons c s)

abbrev pub total_runes : List String → ℕ
total_runes [] = 0
total_runes (value ∷ values) = rune_count value + total_runes values

sum_tokens_bounds :
    (total : ℕ) (values : List String)
    → (sum_tokens total values ≤ total + total_runes values)
      × (4 * total + total_runes values ≤ 4 * sum_tokens total values)
sum_tokens_bounds total [] = omega arith
sum_tokens_bounds total (value ∷ values) =
    omega (arith, ascii_count-le value, sum_tokens_bounds (total + text_tokens value) values)

-- The estimate for a list of texts is at least 1, at least a quarter of their runes, and more than
-- the runes only where there are none.
pub estimate_tokens_bounds :
    (values : List String)
    → (1 ≤ estimate_tokens values)
      × (total_runes values ≤ 4 * estimate_tokens values)
      × (estimate_tokens values ≤ max 1 (total_runes values))
unfolding estimate_tokens
estimate_tokens_bounds values = omega (arith, sum_tokens_bounds 0 values)
