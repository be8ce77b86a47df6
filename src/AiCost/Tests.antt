-- ===== src/AiCost/Tests.antt =====
-- Prices of internal/aicost/catalog.go.
use classing_backend.Base.{◌≤◌, ◌≡◌, refl, some, arith}
use classing_backend.Base.Text.{trim_space}
use classing_backend.Base.Int.{pos}
use classing_backend.AiCost.{
  Model, TokenUsage, catalog, models, resolve, numerator, points, reservation_points,
}
use classing_backend.AiCost.Price.{points-le-reservation_points}

abbrev flash : Model
flash = record {
  id = "deepseek-v4-flash";
  name = "DeepSeek V4 Flash";
  description = "响应更快，适合日常课表问答";
  cached_input_points = 260;
  uncached_input_points = 13000;
  output_points = 26000;
}

abbrev usage : TokenUsage
usage = record { input_tokens = pos 1000; cached_input_tokens = pos 200; output_tokens = pos 100 }

resolves : resolve "deepseek-chat" ≡ some flash
unfolding resolve trim_space
resolves = refl

costs : points "deepseek-chat" usage ≡ 14
unfolding points numerator resolve trim_space
costs = refl

lists : catalog ≡ models
unfolding catalog
lists = refl

points-le-reservation_points_example :
    points "deepseek-chat" usage ≤ reservation_points "deepseek-chat" (pos 1200) (pos 100)
points-le-reservation_points_example =
    points-le-reservation_points "deepseek-chat" usage (pos 1200) (pos 100) (omega arith)
      (omega arith)
