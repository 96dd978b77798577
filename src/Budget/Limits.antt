-- ===== src/Budget/Limits.antt =====
-- core/budget.py, `BudgetLimits`: a request's limits under the server's ceiling.
use auto_scholar.Prelude.{min, ◌≤◌, ◌≡◌, some, arith}
use auto_scholar.Budget.{BudgetLimits, validate, bounded_by}

-- Field by field at most.
pub record Within (a b : BudgetLimits) : Type 0 where
  pub steps : a.steps ≤ b.steps
  pub replans : a.replans ≤ b.replans
  pub model_calls : a.model_calls ≤ b.model_calls
  pub tool_calls : a.tool_calls ≤ b.tool_calls
  pub search_queries : a.search_queries ≤ b.search_queries
  pub code_repairs : a.code_repairs ≤ b.code_repairs
  pub training_runs : a.training_runs ≤ b.training_runs
  pub sandbox_runs : a.sandbox_runs ≤ b.sandbox_runs
  pub total_tokens : a.total_tokens ≤ b.total_tokens
  pub wall_seconds : a.wall_seconds ≤ b.wall_seconds

-- The declared bounds of the fields.
pub record InRange (l : BudgetLimits) : Type 0 where
  pub steps : (1 ≤ l.steps) × (l.steps ≤ 100)
  pub replans : l.replans ≤ 10
  pub model_calls : (1 ≤ l.model_calls) × (l.model_calls ≤ 300)
  pub tool_calls : (1 ≤ l.tool_calls) × (l.tool_calls ≤ 500)
  pub search_queries : (1 ≤ l.search_queries) × (l.search_queries ≤ 100)
  pub code_repairs : l.code_repairs ≤ 10
  pub training_runs : (1 ≤ l.training_runs) × (l.training_runs ≤ 20)
  pub sandbox_runs : (1 ≤ l.sandbox_runs) × (l.sandbox_runs ≤ 200)
  pub total_tokens : (1 ≤ l.total_tokens) × (l.total_tokens ≤ 1000000)
  pub wall_seconds : (1 ≤ l.wall_seconds) × (l.wall_seconds ≤ 7200)

-- The validator accepts exactly the limits in range, and returns them as they are.
validate-InRange : (l : BudgetLimits) → validate l ≡ some l → InRange l
unfolding validate
validate-InRange l h = ground arith

InRange-validate : (l : BudgetLimits) → InRange l → validate l ≡ some l
unfolding validate
InRange-validate l r = ground arith

abbrev meet : BudgetLimits → BudgetLimits → BudgetLimits
meet l c = record {
  steps = min l.steps c.steps;
  replans = min l.replans c.replans;
  model_calls = min l.model_calls c.model_calls;
  tool_calls = min l.tool_calls c.tool_calls;
  search_queries = min l.search_queries c.search_queries;
  code_repairs = min l.code_repairs c.code_repairs;
  training_runs = min l.training_runs c.training_runs;
  sandbox_runs = min l.sandbox_runs c.sandbox_runs;
  total_tokens = min l.total_tokens c.total_tokens;
  wall_seconds = min l.wall_seconds c.wall_seconds;
}

meet-InRange : (l c : BudgetLimits) → InRange l → InRange c → InRange (meet l c)
meet-InRange l c hl hc = omega arith

abbrev pub IsValid : BudgetLimits → Type 0
IsValid l = validate l ≡ some l

-- For valid limits under a valid ceiling `bounded_by` raises no error, and gives the greatest valid
-- limits that are within both: they are within each, and whatever is within both is within them.
pub bounded_by-IsGreatest :
    (l c : BudgetLimits)
    → IsValid l
    → IsValid c
    → (r : BudgetLimits) × (bounded_by l c ≡ some r)
      × IsValid r
      × Within r l
      × Within r c
      × ((m : BudgetLimits) → Within m l → Within m c → Within m r)
unfolding bounded_by
bounded_by-IsGreatest l c hl hc =
    (meet l c, valid, valid, omega arith, omega arith, λ m below_l below_c. omega arith)
  where
    valid : validate (meet l c) ≡ some (meet l c)
    valid =
        InRange-validate (meet l c)
          (meet-InRange l c (validate-InRange l hl) (validate-InRange c hc))
