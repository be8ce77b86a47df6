-- ===== src/AiCost.antt =====
-- internal/aicost/catalog.go: the model catalog and the price of a request. Go's int is signed where a
-- caller passes it, and a natural number where the code has clamped it at 0.
pub mod Price
mod Tests
use Prim.Native.Char.{code}
use classing_backend.Base.{
  ℕ, ◌+◌, ◌-◌, ◌*◌, ◌/◌, min, max, String, Bool, true, false, ◌||◌, Option, none, some, List, [],
  ◌∷◌, ltb, leb, if◌then◌else◌, ◌==◌, nat_eq, string_eq,
}
use classing_backend.Base.Table.{select_one}
use classing_backend.Base.Text.{trim_space, rune_count}
use classing_backend.Base.Int.{ℤ, pos, pos_part, max_ℤ}

abbrev pub default_model : String
default_model = "deepseek-v4-flash"

abbrev pub default_monthly_limit : ℕ
default_monthly_limit = 10000

abbrev pub free_monthly_limit : ℕ
free_monthly_limit = 500

pub record Model : Type 0 where
  pub id : String
  pub name : String
  pub description : String
  pub cached_input_points : ℕ
  pub uncached_input_points : ℕ
  pub output_points : ℕ

pub record TokenUsage : Type 0 where
  pub input_tokens : ℤ
  pub cached_input_tokens : ℤ
  pub output_tokens : ℤ

abbrev pub models : List Model
models =
    record {
      id = "deepseek-v4-flash";
      name = "DeepSeek V4 Flash";
      description = "响应更快，适合日常课表问答";
      cached_input_points = 260;
      uncached_input_points = 13000;
      output_points = 26000;
    }
    ∷ record {
      id = "deepseek-v4-pro";
      name = "DeepSeek V4 Pro";
      description = "推理能力更强，复杂问题消耗更多额度";
      cached_input_points = 325;
      uncached_input_points = 39000;
      output_points = 78000;
    }
    ∷ []

pub catalog : List Model
catalog = models

-- The name that the catalog is asked for: an empty one and two old ones stand for the default.
abbrev pub canonical : String → String
canonical id =
    let id' = trim_space id in
    if id' == "" || id' == "deepseek-chat" || id' == "deepseek-reasoner" then default_model else id'

-- `none` is Go's `Model{}, false`.
unfoldable pub resolve : String → Option Model
resolve id = let id' = canonical id in select_one (λ item. item.id == id') models

-- The points of a usage, times one million.
unfoldable pub numerator : Model → TokenUsage → ℕ
numerator model usage =
    let input = pos_part usage.input_tokens in
    let cached = min input (pos_part usage.cached_input_tokens) in
    let uncached = input - cached in
    cached * model.cached_input_points
    + uncached * model.uncached_input_points
    + pos_part usage.output_tokens * model.output_points

unfoldable pub points : String → TokenUsage → ℕ
unfolding numerator
points model_id usage = elim (resolve model_id) [
  | none ↦ 0
  | some model ↦ let n = numerator model usage in if leb n 0 then 1 else (n + 999999) / 1000000
]

unfoldable pub reservation_points : String → ℤ → ℤ → ℕ
unfolding points
reservation_points model_id estimated_input_tokens max_output_tokens = points model_id (record {
  input_tokens = max_ℤ (pos 1) estimated_input_tokens;
  cached_input_tokens = pos 0;
  output_tokens = max_ℤ (pos 1) max_output_tokens;
})

abbrev ascii_count : String → ℕ
ascii_count String.[] = 0
ascii_count (String.◌∷◌ c s) = (if ltb (code c) 128 then 1 else 0) + ascii_count s

-- The tokens of one text: four ASCII characters to a token, rounded up, and each other rune one.
abbrev pub text_tokens : String → ℕ
text_tokens value = let ascii = ascii_count value in (ascii + 3) / 4 + (rune_count value - ascii)

abbrev sum_tokens : ℕ → List String → ℕ
sum_tokens total [] = total
sum_tokens total (value ∷ values) = sum_tokens (total + text_tokens value) values

pub estimate_tokens : List String → ℕ
estimate_tokens values = max 1 (sum_tokens 0 values)
