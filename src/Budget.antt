-- ===== src/Budget.antt =====
-- core/budget.py: the limits of one request, what it has used, and the tests that stop it.
-- A clock reading is a number of microseconds, and `seconds` converts; the source keeps floats.
pub mod Bounds
pub mod Limits
pub mod Llm
use auto_scholar.Prelude.{
  ℕ, ◌+◌, ◌*◌, ◌-◌, min, String, Bool, true, false, ◌&&◌, Option, none, some, List, [], ◌∷◌, leb,
  ltb, get_or, if◌then◌else◌,
}
use auto_scholar.Prelude.Table.{Table, get, put}
use auto_scholar.Prelude.Result.{
  Result, ok, err, Exec, pure, raise, gets, modify, refuse_if, ◌>>=◌, ◌>>◌,
}

pub record BudgetLimits : Type 0 where
  pub steps : ℕ
  pub replans : ℕ
  pub model_calls : ℕ
  pub tool_calls : ℕ
  pub search_queries : ℕ
  pub code_repairs : ℕ
  pub training_runs : ℕ
  pub sandbox_runs : ℕ
  pub total_tokens : ℕ
  pub wall_seconds : ℕ

-- The defaults of the fields.
abbrev pub default_limits : BudgetLimits
default_limits = record {
  steps = 20;
  replans = 3;
  model_calls = 60;
  tool_calls = 50;
  search_queries = 20;
  code_repairs = 3;
  training_runs = 4;
  sandbox_runs = 40;
  total_tokens = 500000;
  wall_seconds = 1800;
}

-- The bounds `ge` and `le` of the fields, which every construction checks.
unfoldable pub validate : BudgetLimits → Option BudgetLimits
validate l =
    if leb 1 l.steps
      && leb l.steps 100
      && (leb l.replans 10)
      && (leb 1 l.model_calls && leb l.model_calls 300)
      && (leb 1 l.tool_calls && leb l.tool_calls 500)
      && (leb 1 l.search_queries && leb l.search_queries 100)
      && (leb l.code_repairs 10)
      && (leb 1 l.training_runs && leb l.training_runs 20)
      && (leb 1 l.sandbox_runs && leb l.sandbox_runs 200)
      && (leb 1 l.total_tokens && leb l.total_tokens 1000000)
      && (leb 1 l.wall_seconds && leb l.wall_seconds 7200)
    then some l
    else none

-- `none` is the `ValidationError` of the constructor.
unfoldable pub bounded_by : BudgetLimits → BudgetLimits → Option BudgetLimits
unfolding validate
bounded_by l ceiling = validate (record {
  steps = min l.steps ceiling.steps;
  replans = min l.replans ceiling.replans;
  model_calls = min l.model_calls ceiling.model_calls;
  tool_calls = min l.tool_calls ceiling.tool_calls;
  search_queries = min l.search_queries ceiling.search_queries;
  code_repairs = min l.code_repairs ceiling.code_repairs;
  training_runs = min l.training_runs ceiling.training_runs;
  sandbox_runs = min l.sandbox_runs ceiling.sandbox_runs;
  total_tokens = min l.total_tokens ceiling.total_tokens;
  wall_seconds = min l.wall_seconds ceiling.wall_seconds;
})

-- `model_dump()`, in the order of the fields.
abbrev pub model_dump : BudgetLimits → Table ℕ
model_dump l =
    ("steps", l.steps)
    ∷ ("replans", l.replans)
    ∷ ("model_calls", l.model_calls)
    ∷ ("tool_calls", l.tool_calls)
    ∷ ("search_queries", l.search_queries)
    ∷ ("code_repairs", l.code_repairs)
    ∷ ("training_runs", l.training_runs)
    ∷ ("sandbox_runs", l.sandbox_runs)
    ∷ ("total_tokens", l.total_tokens)
    ∷ ("wall_seconds", l.wall_seconds)
    ∷ []

-- `getattr(self.limits, resource)`.
abbrev pub limit_of : BudgetLimits → String → Option ℕ
limit_of l resource = get (model_dump l) resource

pub data BudgetError : Type 0 where
  budget_exceeded : String → BudgetError
  attribute_error : String → BudgetError

pub record Budget : Type 0 where
  pub limits : BudgetLimits
  pub used : Table ℕ
  pub started : ℕ

-- `self.used.get(resource, 0)`.
abbrev pub used_of : Table ℕ → String → ℕ
used_of used resource = get_or (get used resource) 0

abbrev pub seconds : ℕ → ℕ
seconds n = n * 1000000

-- `now - started >= wall_seconds`, with no subtraction that could stop at 0.
abbrev pub is_late : ℕ → Budget → Bool
is_late now b = leb (b.started + seconds b.limits.wall_seconds) now

abbrev pub is_spent : Budget → Bool
is_spent b = leb b.limits.total_tokens (used_of b.used "total_tokens")

unfoldable pub check : ℕ → Exec BudgetError Budget (Unit {0})
check now b =
    if is_late now b
    then (err (budget_exceeded "wall_seconds"), b)
    else if is_spent b
    then (err (budget_exceeded "total_tokens"), b)
    else (ok tt, b)

-- The part of `consume` after its check, for the limit that `getattr` gives.
unfoldable pub charge : String → ℕ → Option ℕ → Exec BudgetError Budget (Unit {0})
charge resource amount none b = (err (attribute_error resource), b)
charge resource amount (some limit) b =
    let current = used_of b.used resource in
    if ltb limit (current + amount)
    then (err (budget_exceeded resource), b)
    else (ok tt, record b { used = put b.used resource (current + amount) })

unfoldable pub consume : ℕ → String → ℕ → Exec BudgetError Budget (Unit {0})
consume now resource amount = do
  check now
  limit ← gets (λ b. limit_of b.limits resource)
  charge resource amount limit
