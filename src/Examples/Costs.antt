-- ===== src/Examples/Costs.antt =====
-- The theorems on llm/usage_parser.py and llm/pricing.py at one report and one price list.
use auto_scholar.Prelude.{ℕ, ◌+◌, ◌*◌, ◌≤◌, some, none, ◌≡◌, ◌≢◌, refl, ◌↔◌}
use auto_scholar.Prelude.Int.{pos}
use auto_scholar.Usage.{TokenUsage}
use auto_scholar.Llm.Parser.{
  RawUsage, RawValue, missing, integer, other, parse_usage, IsSplit, IsPart, parse_usage-IsSplit,
}
use auto_scholar.Llm.Pricing.{
  ModelPricing, estimate, input_price, split_price, round_half_even, IsTotalled, IsInputPrice,
  estimate-some, estimate-parse_usage,
}

abbrev report : RawValue → RawUsage
report hit = record {
  prompt_tokens = pos 100;
  completion_tokens = pos 10;
  total_tokens = pos 110;
  prompt_cache_hit_tokens = hit;
  prompt_cache_miss_tokens = missing;
  cached_tokens = missing;
  reasoning_tokens = integer (pos 4);
}

abbrev prices : ModelPricing
prices = record {
  input_per_million = 2000003;
  output_per_million = 8000000;
  cached_input_per_million = some 500000;
}

parse_usage-IsSplit_example :
    IsSplit
      (pos 100)
      (parse_usage (report (integer (pos 60)))).cached_input_tokens
      (parse_usage (report (integer (pos 60)))).uncached_input_tokens
    × IsPart (pos 10) (parse_usage (report (integer (pos 60)))).reasoning_tokens
    × ((parse_usage (report (integer (pos 60)))).input_tokens ≡ pos 100)
    × ((parse_usage (report (integer (pos 60)))).output_tokens ≡ pos 10)
    × ((parse_usage (report (integer (pos 60)))).total_tokens ≡ pos 110)
parse_usage-IsSplit_example = parse_usage-IsSplit (report (integer (pos 60)))

report_totals : IsTotalled (parse_usage (report other))
unfolding parse_usage
report_totals = (100, 10, refl, refl, refl)

estimate-parse_usage_example : (estimate prices (parse_usage (report other)) ≡ none) ↔ (
    (hit_rate : ℕ) × (some 500000 ≡ some hit_rate)
    × (hit_rate ≢ 2000003)
    × ((parse_usage (report other)).cached_input_tokens ≡ none))
estimate-parse_usage_example = estimate-parse_usage prices (report other) report_totals

abbrev measured : TokenUsage
measured = record {
  input_tokens = pos 100;
  output_tokens = pos 10;
  total_tokens = pos 110;
  cached_input_tokens = some (pos 60);
  uncached_input_tokens = some (pos 40);
  reasoning_tokens = none;
}

measured_cost : estimate prices measured ≡ some 1900001
unfolding estimate input_price split_price round_half_even
measured_cost = refl

estimate-some_example :
    (totals : IsTotalled measured) × (price : ℕ) × IsInputPrice prices measured totals.0 price
    × (190000100 ≤ price + totals.1 * 8000000 + 50)
    × (price + totals.1 * 8000000 ≤ 190000100 + 50)
estimate-some_example = estimate-some prices measured measured_cost
