-- ===== src/Llm/Parser.antt =====
-- llm/usage_parser.py: the usage that a provider reports, without invented cache statistics.
use auto_scholar.Prelude.{
  ℕ, ◌+◌, ◌-◌, ◌≤◌, Bool, true, false, not, ◌&&◌, ◌||◌, Option, none, some, ◌≡◌, refl, inl, inr,
  if◌then◌else◌, ◌==◌, is_some, Bool-cases, arith,
}
use auto_scholar.Prelude.Int.{ℤ, pos, negsuc, pos_part, neg_part, leb_ℤ, sum_eq_ℤ}
use auto_scholar.Usage.{TokenUsage}

-- A value of the report: none, an integer, or something else, a Boolean among them.
pub data RawValue : Type 0 where
  missing : RawValue
  integer : ℤ → RawValue
  other : RawValue

-- The values that the parser reads; the last two stand in objects of their own, which may be missing.
pub record RawUsage : Type 0 where
  pub prompt_tokens : ℤ
  pub completion_tokens : ℤ
  pub total_tokens : ℤ
  pub prompt_cache_hit_tokens : RawValue
  pub prompt_cache_miss_tokens : RawValue
  pub cached_tokens : RawValue
  pub reasoning_tokens : RawValue

unfoldable pub count : RawValue → Option ℕ
count missing = none
count (integer (pos n)) = some n
count (integer (negsuc n)) = none
count other = none

-- `value is not None and _count(value) is None`.
unfoldable pub is_malformed : RawValue → Bool
is_malformed missing = false
is_malformed (integer z) = not (is_some (count (integer z)))
is_malformed other = true

-- `a is not None and b is not None and a != b`.
unfoldable pub contradicts : Option ℕ → Option ℕ → Bool
contradicts (some a) (some b) = not (a == b)
contradicts _ _ = false

-- What is left of the input, if the one is unknown and the other is known and within the input.
unfoldable pub infer : ℤ → Option ℕ → Option ℕ → Option ℕ
infer input (some known) _ = some known
infer input none (some rest) = if leb_ℤ (pos rest) input then some (pos_part input - rest) else none
infer input none none = none

-- `hit + miss == input_tokens`, for counts that are both known.
unfoldable pub adds_up : ℤ → Option ℕ → Option ℕ → Bool
adds_up input (some hit) (some miss) = sum_eq_ℤ (pos hit) (pos miss) input
adds_up input _ _ = false

unfoldable pub as_count : Option ℕ → Option ℤ
as_count none = none
as_count (some n) = some (pos n)

-- `reasoning if reasoning is not None and reasoning <= output_tokens else None`.
unfoldable pub within : ℤ → Option ℕ → Option ℤ
within output none = none
within output (some n) = if leb_ℤ (pos n) output then some (pos n) else none

unfoldable pub parse_usage : RawUsage → TokenUsage
parse_usage raw =
    let reported = count raw.prompt_cache_hit_tokens in
    let missed = count raw.prompt_cache_miss_tokens in
    let detail = count raw.cached_tokens in
    let invalid =
      is_malformed raw.prompt_cache_hit_tokens
      || is_malformed raw.prompt_cache_miss_tokens
      || contradicts reported detail in
    let either = if is_some reported then reported else detail in
    let hit = infer raw.prompt_tokens either missed in
    let miss = infer raw.prompt_tokens missed hit in
    let known = not invalid && adds_up raw.prompt_tokens hit miss in
    record {
      input_tokens = raw.prompt_tokens;
      output_tokens = raw.completion_tokens;
      total_tokens = raw.total_tokens;
      cached_input_tokens = if known then as_count hit else none;
      uncached_input_tokens = if known then as_count miss else none;
      reasoning_tokens = within raw.completion_tokens (count raw.reasoning_tokens);
    }

-- Both unknown, or two counts that add up to the input.
abbrev pub IsSplit : ℤ → Option ℤ → Option ℤ → Type 0
IsSplit input none none = Unit
IsSplit input (some (pos hit)) (some (pos miss)) = input ≡ pos (hit + miss)
IsSplit input _ _ = ⊥

abbrev pub IsPart : ℤ → Option ℤ → Type 0
IsPart output none = Unit
IsPart output (some (pos n)) = n + neg_part output ≤ pos_part output
IsPart output (some (negsuc n)) = ⊥

split_lem :
    (input : ℤ) (hit miss : Option ℕ)
    → adds_up input hit miss ≡ true
    → IsSplit input (as_count hit) (as_count miss)
unfolding adds_up as_count
split_lem input none none h = absurd (cc)
split_lem input none (some m) h = absurd (cc)
split_lem input (some n) none h = absurd (cc)
split_lem (pos k) (some n) (some m) h = ground arith
split_lem (negsuc k) (some n) (some m) h = absurd (ground arith)

part_lem : (output : ℤ) (n : Option ℕ) → IsPart output (within output n)
unfolding within
part_lem output none = tt
part_lem output (some n) = elim (Bool-cases (leb_ℤ (pos n) output)) [
  | inl h ↦ rw h (ground arith)
  | inr h ↦ rw h tt
]

-- Whatever a provider reports: the cached and the uncached input are both unknown, or they are two
-- counts that add up to the input; the reasoning is unknown or a count within the output; and the
-- three totals are passed on as they were reported.
pub parse_usage-IsSplit :
    (raw : RawUsage)
    → IsSplit raw.prompt_tokens
        (parse_usage raw).cached_input_tokens
        (parse_usage raw).uncached_input_tokens
      × IsPart raw.completion_tokens (parse_usage raw).reasoning_tokens
      × ((parse_usage raw).input_tokens ≡ raw.prompt_tokens)
      × ((parse_usage raw).output_tokens ≡ raw.completion_tokens)
      × ((parse_usage raw).total_tokens ≡ raw.total_tokens)
unfolding parse_usage
parse_usage-IsSplit raw =
    let reported = count raw.prompt_cache_hit_tokens in
    let missed = count raw.prompt_cache_miss_tokens in
    let hit =
      infer raw.prompt_tokens (if is_some reported then reported else count raw.cached_tokens)
        missed in
    let miss = infer raw.prompt_tokens missed hit in
    let known =
      not (
        is_malformed raw.prompt_cache_hit_tokens
        || is_malformed raw.prompt_cache_miss_tokens
        || contradicts reported (count raw.cached_tokens))
      && adds_up raw.prompt_tokens hit miss in
    let part = part_lem raw.completion_tokens (count raw.reasoning_tokens) in
    elim (Bool-cases known) [
      | inl h ↦ rw h (split_lem raw.prompt_tokens hit miss (ground arith), part, refl, refl, refl)
      | inr h ↦ rw h (tt, part, refl, refl, refl)
    ]
