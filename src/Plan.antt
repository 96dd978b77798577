-- ===== src/Plan.antt =====
-- orchestration/models.py and experiment/models.py: the steps of a plan, and what makes a plan valid.
pub mod Index
mod Resolve
pub mod Complete
pub mod Acyclic
pub mod Progress
pub mod Execution
use auto_scholar.Prelude.{
  ℕ, zero, suc, ◌*◌, String, Bool, true, false, not, ◌&&◌, ◌||◌, Option, none, some, List, [], ◌∷◌,
  ◌++◌, map, length, is_empty, any, all, keep_if, get_or, is_some, ltb, ◌==◌, if◌then◌else◌,
}
use auto_scholar.Prelude.Table.{Table, get, put}
use auto_scholar.Prelude.Sets.{contains, is_subset, minus, distinct}
use auto_scholar.Prelude.Result.{Result, ok, err}

pub data ModelName : Type 0 where
  mlp cnn : ModelName

-- `learning_rate` is a float, and is kept here in millionths. The fields with one value are left out.
pub record ExperimentSpecification : Type 0 where
  pub name : String
  pub models : List ModelName
  pub seed : ℕ
  pub epochs : ℕ
  pub batch_size : ℕ
  pub learning_rate : ℕ
  pub train_samples : ℕ
  pub test_samples : ℕ

pub data StepType : Type 0 where
  research knowledge coding experiment : StepType

pub record PlanStep : Type 0 where
  pub id : String
  pub kind : StepType
  pub description : String
  pub dependencies : List String
  pub expected_output : String
  pub specification : Option ExperimentSpecification

pub record TaskPlan : Type 0 where
  pub goal : String
  pub steps : List PlanStep

-- The messages of the `ValueError`s of `validate_graph`.
pub data PlanError : Type 0 where
  not_unique duplicate_dependency unknown_or_self specification_refused cycle : PlanError
  many_coding_predecessors not_one_coding_dependency : PlanError

abbrev pub is_coding : StepType → Bool
is_coding coding = true
is_coding _ = false

abbrev pub is_experiment : StepType → Bool
is_experiment experiment = true
is_experiment _ = false

-- `{step.id: step for step in steps}`; a later step takes the place of one with its identifier.
unfoldable pub index : List PlanStep → Table PlanStep → Table PlanStep
index [] table = table
index (step ∷ steps) table = index steps (put table step.id step)

abbrev pub by_id : List PlanStep → Table PlanStep
by_id steps = index steps []

abbrev pub keys : {V : Type 0} → Table V → List String
keys table = map (λ entry. entry.0) table

abbrev dependencies_in : Option PlanStep → List String
dependencies_in none = []
dependencies_in (some step) = step.dependencies

-- `by_id[key].dependencies`, for a key of the table.
abbrev pub dependencies_of : Table PlanStep → String → List String
dependencies_of table key = dependencies_in (get table key)

abbrev coding_in : Option PlanStep → Bool
coding_in none = false
coding_in (some step) = is_coding step.kind

-- `by_id[key].type == "coding"`.
abbrev pub is_coding_key : Table PlanStep → String → Bool
is_coding_key table key = coding_in (get table key)

-- The first loop over the steps.
unfoldable pub check_step : Table PlanStep → PlanStep → Option PlanError
check_step table step =
    if not (length (distinct step.dependencies) == length step.dependencies)
    then some duplicate_dependency
    else if contains step.dependencies step.id || not (is_subset step.dependencies (keys table))
    then some unknown_or_self
    else if is_some step.specification && not (is_experiment step.kind)
    then some specification_refused
    else none

-- The last loop over the steps.
unfoldable pub check_coding : Table PlanStep → PlanStep → Option PlanError
check_coding table step =
    let coding_keys = keep_if (is_coding_key table) step.dependencies in
    if is_coding step.kind && ltb 1 (length coding_keys)
    then some many_coding_predecessors
    else if is_experiment step.kind && not (length coding_keys == 1)
    then some not_one_coding_dependency
    else none

-- A `for` loop that raises at the first step with an error.
unfoldable pub first_error : (PlanStep → Option PlanError) → List PlanStep → Option PlanError
first_error check [] = none
first_error check (step ∷ steps) =
    let rest = first_error check steps in elim (check step) [ none ↦ rest | some e ↦ some e ]

abbrev pub ready_keys : Table PlanStep → List String → List String → List String
ready_keys table pending done = keep_if (λ key. is_subset (dependencies_of table key) done) pending

-- `while pending: ...`, with fuel: `true` when `pending` has become empty, `false` for a cycle.
unfoldable pub resolves : Table PlanStep → ℕ → List String → List String → Bool
resolves table fuel [] done = true
resolves table zero (key ∷ pending) done = false
resolves table (suc fuel) (key ∷ pending) done =
    let ready = ready_keys table (key ∷ pending) done in
    let rest = resolves table fuel (minus (key ∷ pending) ready) (done ++ ready) in
    if is_empty ready then false else rest

-- Every round takes one key at least out of `pending`, so its length is fuel enough.
unfoldable pub validate_graph : TaskPlan → Result PlanError TaskPlan
validate_graph plan =
    let table = by_id plan.steps in
    let pending = keys table in
    if not (length table == length plan.steps)
    then err not_unique
    else elim (first_error (check_step table) plan.steps) [
      | some e ↦ err e
      | none ↦
          if resolves table (length pending) pending []
          then elim (first_error (check_coding table) plan.steps) [
            | some e ↦ err e
            | none ↦ ok plan
          ]
          else err cycle
    ]

-- orchestration/approvals.py, `cost_units`.
unfoldable pub cost_units : ExperimentSpecification → ℕ
cost_units s = s.epochs * s.train_samples * length s.models
