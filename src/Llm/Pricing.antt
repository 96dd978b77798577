-- ===== src/Llm/Pricing.antt =====
-- llm/pricing.py: what a call costs at the rates that the user has given.
use auto_scholar.Prelude.{
  ℕ, ◌+◌, ◌*◌, ◌/◌, ◌%◌, ◌≤◌, true, false, not, ◌||◌, Option, none, some, ◌≡◌, ◌≢◌, refl, ap, ◌∙◌,
  ◌⊎◌, ◌↔◌, inl, inr, if◌then◌else◌, ltb, ◌==◌, Bool-cases, Option-cases, arith,
}
use auto_scholar.Prelude.Int.{ℤ, pos, negsuc, pos_part, leb_ℤ, sum_eq_ℤ}
use auto_scholar.Usage.{TokenUsage}
use auto_scholar.Llm.Parser.{RawUsage, parse_usage, parse_usage-IsSplit, IsSplit}

-- Rates have at most six decimals and are not negative: they are counted in millionths, which makes
-- the price of a token one in 10^-12.
pub record ModelPricing : Type 0 where
  pub input_per_million : ℕ
  pub output_per_million : ℕ
  pub cached_input_per_million : Option ℕ

-- `quantize` rounds to the nearest multiple, and from halfway to the even one.
unfoldable pub round_half_even : ℕ → ℕ → ℕ
round_half_even n unit =
    let q = n / unit in
    let r = n % unit in
    if ltb (2 * r) unit
    then q
    else if ltb unit (2 * r)
    then q + 1
    else if q % 2 == 0
    then q
    else q + 1

-- `hit is None or miss is None or min(hit, miss) < 0 or hit + miss != usage.input_tokens`, or the
-- price of the input.
unfoldable pub split_price : ℕ → ℕ → ℤ → Option ℤ → Option ℤ → Option ℕ
split_price hit_rate rate input (some hit) (some miss) =
    if not (leb_ℤ (pos 0) hit) || not (leb_ℤ (pos 0) miss) || not (sum_eq_ℤ hit miss input)
    then none
    else some (pos_part hit * hit_rate + pos_part miss * rate)
split_price hit_rate rate input _ _ = none

unfoldable pub input_price : ModelPricing → TokenUsage → Option ℕ
input_price pricing usage = elim pricing.cached_input_per_million [
  | none ↦ some (pos_part usage.input_tokens * pricing.input_per_million)
  | some hit_rate ↦
      if not (hit_rate == pricing.input_per_million)
      then split_price hit_rate pricing.input_per_million usage.input_tokens
          usage.cached_input_tokens usage.uncached_input_tokens
      else some (pos_part usage.input_tokens * pricing.input_per_million)
]

-- The cost in 10^-10 of the currency.
unfoldable pub estimate : ModelPricing → TokenUsage → Option ℕ
estimate pricing usage =
    if not (leb_ℤ (pos 0) usage.input_tokens)
      || not (leb_ℤ (pos 0) usage.output_tokens)
      || not (leb_ℤ (pos 0) usage.total_tokens)
    then none
    else if not (sum_eq_ℤ usage.input_tokens usage.output_tokens usage.total_tokens)
    then none
    else elim (input_price pricing usage) [
      | none ↦ none
      | some inputs ↦
          some (
            round_half_even (inputs + pos_part usage.output_tokens * pricing.output_per_million)
              100)
    ]

round_bounds :
    (n : ℕ) → (100 * round_half_even n 100 ≤ n + 50) × (n ≤ 100 * round_half_even n 100 + 50)
unfolding round_half_even
round_bounds n = ground arith

abbrev pub IsTotalled : TokenUsage → Type 0
IsTotalled usage =
    (i : ℕ) × (o : ℕ) × (usage.input_tokens ≡ pos i)
    × (usage.output_tokens ≡ pos o)
    × (usage.total_tokens ≡ pos (i + o))

-- The exact price of the input, in 10^-12: at one rate, or at two for the parts of a known split.
abbrev pub IsInputPrice : ModelPricing → TokenUsage → ℕ → ℕ → Type 0
IsInputPrice pricing usage i price =
    (((pricing.cached_input_per_million ≡ none)
        ⊎ (pricing.cached_input_per_million ≡ some pricing.input_per_million))
      × (price ≡ i * pricing.input_per_million))
    ⊎ ((hit_rate : ℕ) × (hit : ℕ) × (miss : ℕ) × (pricing.cached_input_per_million ≡ some hit_rate)
        × (hit + miss ≡ i)
        × (usage.cached_input_tokens ≡ some (pos hit))
        × (usage.uncached_input_tokens ≡ some (pos miss))
        × (price ≡ hit * hit_rate + miss * pricing.input_per_million))

split_price-some :
    (hit_rate rate : ℕ) (input : ℤ) (cached uncached : Option ℤ) {price : ℕ}
    → split_price hit_rate rate input cached uncached ≡ some price
    → (hit miss : ℕ) × (cached ≡ some (pos hit))
      × (uncached ≡ some (pos miss))
      × (input ≡ pos (hit + miss))
      × (price ≡ hit * hit_rate + miss * rate)
unfolding split_price
split_price-some hit_rate rate input none uncached h = absurd (cc)
split_price-some hit_rate rate input (some hit) none h = absurd (cc)
split_price-some hit_rate rate (pos i) (some (pos hit)) (some (pos miss)) h =
    (hit, miss, refl, refl, ground arith, ground arith)
split_price-some hit_rate rate (negsuc i) (some (pos hit)) (some (pos miss)) h =
    absurd (ground arith)
split_price-some hit_rate rate input (some (negsuc hit)) (some miss) h = absurd (ground arith)
split_price-some hit_rate rate input (some (pos hit)) (some (negsuc miss)) h = absurd (ground arith)

input_price-some :
    (pricing : ModelPricing) (usage : TokenUsage) (i : ℕ) {price : ℕ}
    → usage.input_tokens ≡ pos i
    → input_price pricing usage ≡ some price
    → IsInputPrice pricing usage i price
unfolding input_price
input_price-some pricing usage i e h = elim (Option-cases pricing.cached_input_per_million) [
  | inl unknown ↦ inl (inl unknown, ground (arith, unknown))
  | inr (hit_rate, known) ↦ elim (Bool-cases (hit_rate == pricing.input_per_million)) [
    | inl same ↦
        let rate : hit_rate ≡ pricing.input_per_million = ground arith in
        inl (inr (known ∙ ap some rate), ground (arith, known))
    | inr differs ↦
        let split =
          split_price-some hit_rate pricing.input_per_million usage.input_tokens
            usage.cached_input_tokens usage.uncached_input_tokens (ground (arith, known)) in
        inr (hit_rate, split.0, split.1, known, ground (arith, split.4), split.2, split.3, split.5)
  ]
]

totals_lem :
    (a b c : ℤ)
    → leb_ℤ (pos 0) a ≡ true
    → leb_ℤ (pos 0) b ≡ true
    → sum_eq_ℤ a b c ≡ true
    → (i : ℕ) × (o : ℕ) × (a ≡ pos i) × (b ≡ pos o) × (c ≡ pos (i + o))
totals_lem (pos i) (pos o) (pos t) ha hb hc = (i, o, refl, refl, ground arith)
totals_lem (pos i) (pos o) (negsuc t) ha hb hc = absurd (ground arith)
totals_lem (pos i) (negsuc o) c ha hb hc = absurd (ground arith)
totals_lem (negsuc i) b c ha hb hc = absurd (ground arith)

-- A cost is given only for counts that are not negative and whose total is their sum, and with a
-- cached rate of its own only for a known split of the input. It is then the exact price of the
-- cached and the uncached input and of the output at their rates, to the nearest 10^-10.
pub estimate-some :
    (pricing : ModelPricing) (usage : TokenUsage) {cost : ℕ}
    → estimate pricing usage ≡ some cost
    → (totals : IsTotalled usage) × (price : ℕ) × IsInputPrice pricing usage totals.0 price
      × (100 * cost ≤ price + totals.1 * pricing.output_per_million + 50)
      × (price + totals.1 * pricing.output_per_million ≤ 100 * cost + 50)
unfolding estimate
estimate-some pricing usage {cost} h =
    let totals : IsTotalled usage =
      totals_lem usage.input_tokens usage.output_tokens usage.total_tokens (ground arith)
        (ground arith) (ground arith) in
    elim (Option-cases (input_price pricing usage)) [
      | inl unknown ↦ absurd (ground (arith, unknown))
      | inr (price, known) ↦
          let rounded : cost ≡ round_half_even (price + totals.1 * pricing.output_per_million) 100 =
            ground (arith, known, totals.3) in
          let near = round_bounds (price + totals.1 * pricing.output_per_million) in
          (
            totals,
            price,
            input_price-some pricing usage totals.0 totals.2 known,
            rw rounded near.0,
            rw rounded near.1,
          )
    ]

split_price-none :
    (hit_rate rate : ℕ) (input : ℤ) (cached uncached : Option ℤ)
    → IsSplit input cached uncached
    → split_price hit_rate rate input cached uncached ≡ none
    → cached ≡ none
unfolding split_price
split_price-none hit_rate rate input none uncached s h = refl
split_price-none hit_rate rate input (some (pos hit)) (some (pos miss)) s h = absurd (ground arith)
split_price-none hit_rate rate input (some (pos hit)) none s h = absurd s
split_price-none hit_rate rate input (some (pos hit)) (some (negsuc miss)) s h = absurd s
split_price-none hit_rate rate input (some (negsuc hit)) uncached s h = absurd s

estimate-none :
    (pricing : ModelPricing) (usage : TokenUsage)
    → IsTotalled usage
    → estimate pricing usage ≡ none
    → input_price pricing usage ≡ none
unfolding estimate
estimate-none pricing usage (i, o, ei, eo, et) h = elim (Option-cases (input_price pricing usage)) [
  | inl unknown ↦ unknown
  | inr (price, known) ↦ absurd (ground (arith, known))
]

none-estimate :
    (pricing : ModelPricing) (usage : TokenUsage)
    → input_price pricing usage ≡ none
    → estimate pricing usage ≡ none
unfolding estimate
none-estimate pricing usage unpriced = ground (arith, unpriced)

input_price-none :
    (pricing : ModelPricing) (usage : TokenUsage) (hit_rate : ℕ)
    → pricing.cached_input_per_million ≡ some hit_rate
    → (hit_rate == pricing.input_per_million) ≡ false
    → usage.cached_input_tokens ≡ none
    → input_price pricing usage ≡ none
unfolding input_price split_price
input_price-none pricing usage hit_rate known differs unsplit =
    rw (known, input_price, differs, unsplit) refl

-- A parsed report whose totals fit has a cost, unless the cached input has a rate of its own and the
-- report tells no split of the input; then it has none.
pub estimate-parse_usage :
    (pricing : ModelPricing) (raw : RawUsage)
    → IsTotalled (parse_usage raw)
    → (estimate pricing (parse_usage raw) ≡ none) ↔ (
        (hit_rate : ℕ) × (pricing.cached_input_per_million ≡ some hit_rate)
        × (hit_rate ≢ pricing.input_per_million)
        × ((parse_usage raw).cached_input_tokens ≡ none))
unfolding input_price
estimate-parse_usage pricing raw totals =
    let usage = parse_usage raw in
    let facts = parse_usage-IsSplit raw in
    (
      λ h.
          let unpriced = estimate-none pricing usage totals h in
          elim (Option-cases pricing.cached_input_per_million) [
            | inl unknown ↦ absurd (ground (arith, unknown, unpriced))
            | inr (hit_rate, known) ↦
                let differs : (hit_rate == pricing.input_per_million) ≡ false =
                  ground (arith, known, unpriced) in
                let unsplit : split_price hit_rate pricing.input_per_million usage.input_tokens
                      usage.cached_input_tokens usage.uncached_input_tokens
                    ≡ none =
                  ground (arith, known, unpriced) in
                (
                  hit_rate,
                  known,
                  ground arith,
                  split_price-none hit_rate pricing.input_per_million usage.input_tokens
                      usage.cached_input_tokens usage.uncached_input_tokens (rw facts.2 facts.0)
                      unsplit,
                )
          ],
      λ (hit_rate, known, differs, unsplit).
          none-estimate pricing usage
            (input_price-none pricing usage hit_rate known (ground arith) unsplit),
    )
