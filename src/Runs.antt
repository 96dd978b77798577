-- ===== src/Runs.antt =====
-- orchestration/checkpoints.py, `Snapshot.restore` and `Snapshot.capture`, with `Run` of
-- orchestration/service.py. The clock's origin is early enough for the subtraction of the active time.
use auto_scholar.Prelude.{
  ℕ, ◌-◌, String, Bool, true, false, ◌&&◌, leb, Option, none, some, List, is_some, if◌then◌else◌,
}
use auto_scholar.Prelude.Table.{Table}
use auto_scholar.Prelude.Result.{ok, err}
use auto_scholar.Budget.{Budget, validate}
use auto_scholar.Plan.{ExperimentSpecification, TaskPlan, validate_graph}
use auto_scholar.Snapshot.{
  Value, WorkflowKind, Snapshot, Stage, ReviewResult, QualityState, validate_verdict,
}

pub record Run : Type 0 where
  pub task_id : String
  pub objective : String
  pub specification : ExperimentSpecification
  pub budget : Budget
  pub project_id : Option String
  pub document_ids : Option (List String)
  pub retrieval_mode : String
  pub research_sources : List String
  pub workflow_kind : WorkflowKind
  pub as_of_date : String
  pub plan : Option TaskPlan
  pub version : ℕ
  pub results : Table (Table Value)
  pub sources : Table (Table String)
  pub previous_sources : Table (Table String)
  pub review : Option ReviewResult
  pub answer : Option String
  pub traces : ℕ
  pub memory_context : Table Value
  pub research_depth : String
  pub quality : QualityState

unfoldable pub restore : Snapshot → Table ℕ → ℕ → ℕ → Run
restore s usage active_seconds now = record {
  task_id = s.task_id;
  objective = s.objective;
  specification = s.specification;
  budget = record { limits = s.limits; used = usage; started = now - active_seconds };
  project_id = s.project_id;
  document_ids = s.document_ids;
  retrieval_mode = s.retrieval_mode;
  research_sources = s.research_sources;
  workflow_kind = s.workflow_kind;
  as_of_date = s.as_of_date;
  plan = s.plan;
  version = s.version;
  results = s.results;
  sources = s.sources;
  previous_sources = s.previous_sources;
  review = s.review;
  answer = s.answer;
  traces = s.traces;
  memory_context = s.memory_context;
  research_depth = s.research_depth;
  quality = s.quality;
}

abbrev plan_holds : Option TaskPlan → Bool
plan_holds none = true
plan_holds (some plan) = elim (validate_graph plan) [ ok _ ↦ true | err _ ↦ false ]

abbrev review_holds : Option ReviewResult → Bool
review_holds none = true
review_holds (some review) = is_some (validate_verdict review)

-- The constraints on numbers that are modelled.
abbrev pub fields_hold : Snapshot → Bool
fields_hold s = leb 1 s.version && is_some (validate s.limits)

-- What `model_validate` checks of JSON, where every nested model is built anew.
abbrev pub is_valid_snapshot : Snapshot → Bool
is_valid_snapshot s = fields_hold s && (plan_holds s.plan && review_holds s.review)

-- `model_validate` of a payload; `none` is its `ValidationError`.
unfoldable pub model_validate : Snapshot → Option Snapshot
model_validate s = if is_valid_snapshot s then some s else none

-- `values` holds the run's plan, review, specification and quality as they are: instances of models,
-- which `model_validate` takes without looking into them.
unfoldable pub capture : Snapshot → Run → Stage → Option Snapshot
capture s run stage =
    let values = record s {
      plan = run.plan;
      version = run.version;
      results = run.results;
      sources = run.sources;
      previous_sources = run.previous_sources;
      review = run.review;
      answer = run.answer;
      traces = run.traces;
      specification = run.specification;
      memory_context = run.memory_context;
      quality = run.quality;
      stage = stage;
    } in
    if fields_hold values then some values else none
