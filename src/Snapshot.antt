-- ===== src/Snapshot.antt =====
-- orchestration/checkpoints.py, with the parts of orchestration/models.py, task_types.py and
-- research/quality_models.py that a snapshot holds.
use auto_scholar.Prelude.{
  ℕ, String, Bool, true, false, Option, none, some, List, is_empty, if◌then◌else◌,
}
use auto_scholar.Prelude.Table.{Table}
use auto_scholar.Budget.{BudgetLimits}
use auto_scholar.Plan.{ExperimentSpecification, TaskPlan}

-- A JSON value that is no container.
pub data Value : Type 0 where
  null : Value
  text : String → Value
  number : ℕ → Value
  flag : Bool → Value

pub data WorkflowKind : Type 0 where
  research literature_review comparison research_proposal document_analysis experiment :
      WorkflowKind

-- `kind in TASK_TYPES`.
abbrev pub is_research : WorkflowKind → Bool
is_research experiment = false
is_research _ = true

abbrev pub is_document_analysis : WorkflowKind → Bool
is_document_analysis document_analysis = true
is_document_analysis _ = false

pub data Stage : Type 0 where
  planner executor quality reviewer replanner writer done : Stage

pub data Verdict : Type 0 where
  pass replan : Verdict

pub record ReviewIssue : Type 0 where
  pub code : String
  pub step_id : String
  pub message : String

pub record ReviewResult : Type 0 where
  pub status : Verdict
  pub issues : List ReviewIssue
  pub suggested_steps : List String

-- `validate_verdict`; `none` is its `ValueError`.
unfoldable pub validate_verdict : ReviewResult → Option ReviewResult
validate_verdict review = elim review.status [
  | pass ↦ if is_empty review.issues then some review else none
  | replan ↦ if is_empty review.issues then none else some review
]

-- The fields that the workflow's bookkeeping reads: `sections` by their headings.
pub record QualityState : Type 0 where
  pub phase : String
  pub sections : List String
  pub accepted : Bool

pub record Snapshot : Type 0 where
  pub stage : Stage
  pub task_id : String
  pub objective : String
  pub workflow_kind : WorkflowKind
  pub as_of_date : String
  pub specification : ExperimentSpecification
  pub limits : BudgetLimits
  pub project_id : Option String
  pub model_profile_id : Option String
  pub model_profile_name : Option String
  pub model_name : Option String
  pub document_ids : Option (List String)
  pub retrieval_mode : String
  pub research_sources : List String
  pub plan : Option TaskPlan
  pub version : ℕ
  pub results : Table (Table Value)
  pub sources : Table (Table String)
  pub previous_sources : Table (Table String)
  pub review : Option ReviewResult
  pub answer : Option String
  pub traces : ℕ
  pub approval_threshold : ℕ
  pub memory_context : Table Value
  pub research_depth : String
  pub quality : QualityState
