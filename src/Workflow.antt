-- ===== src/Workflow.antt =====
-- orchestration/service.py, what decides on plans: the rules for a plan of a workflow, and the revision
-- of a plan after a review. What a model proposes is an argument; the rules hold for any proposal.
pub mod Rules
pub mod Revision
use native.Mathlib.Decide.{ℕ_discrete}
use auto_scholar.Prelude.Text.{String-discrete}
use auto_scholar.Prelude.{
  ℕ, suc, ◌+◌, String, Bool, true, false, not, ◌&&◌, ◌||◌, ◌==◌, ltb, Option, none, some, List, [],
  ◌∷◌, ◌++◌, map, any, all, keep_if, length, is_empty, is_some, str_eq, if◌then◌else◌,
}
use auto_scholar.Prelude.Table.{Table, get, put, remove}
use auto_scholar.Prelude.Sets.{contains, is_subset, distinct}
use auto_scholar.Prelude.Result.{Result, ok, err}
use auto_scholar.Budget.{used_of}
use auto_scholar.Plan.{
  ExperimentSpecification, ModelName, StepType, research, knowledge, coding, experiment, PlanStep,
  TaskPlan, is_coding, is_experiment, by_id, keys,
}
use auto_scholar.Snapshot.{
  is_research, is_document_analysis, ReviewIssue, ReviewResult, QualityState,
}
use auto_scholar.Durable.Approvals.{close_affected}
use auto_scholar.Runs.{Run}

-- The messages of `WorkflowError`, and the failed assertions.
pub data WorkflowError : Type 0 where
  goal_not_preserved not_a_research_step not_a_knowledge_step no_experiment_step : WorkflowError
  no_project documents_disabled other_specification : WorkflowError
  step_not_retained reruns_not_unique issues_not_rerun code_repairs_exceeded : WorkflowError
  no_plan_or_review : WorkflowError

unfoldable pub StepType-discrete : Discrete StepType
StepType-discrete = hlevel

unfoldable pub Specification-discrete : Discrete ExperimentSpecification
Specification-discrete = hlevel (String-discrete, ℕ_discrete)

unfoldable pub PlanStep-discrete : Discrete PlanStep
PlanStep-discrete = hlevel (String-discrete, ℕ_discrete)

abbrev pub same_kind : StepType → StepType → Bool
same_kind a b = elim (StepType-discrete a b) [ yes _ ↦ true | no _ ↦ false ]

abbrev pub same_specification : ExperimentSpecification → ExperimentSpecification → Bool
same_specification a b = elim (Specification-discrete a b) [ yes _ ↦ true | no _ ↦ false ]

abbrev pub same_step : PlanStep → PlanStep → Bool
same_step a b = elim (PlanStep-discrete a b) [ yes _ ↦ true | no _ ↦ false ]

-- `kind not in {"research", "knowledge"}`.
abbrev pub is_training : StepType → Bool
is_training kind = is_coding kind || is_experiment kind

abbrev pub is_knowledge : StepType → Bool
is_knowledge knowledge = true
is_knowledge _ = false

abbrev is_empty_list : Option (List String) → Bool
is_empty_list none = false
is_empty_list (some ids) = is_empty ids

abbrev differs : Option ExperimentSpecification → ExperimentSpecification → Bool
differs none specification = false
differs (some own) specification = not (same_specification own specification)

-- The loop over the steps, for one step.
unfoldable pub check_step : Run → PlanStep → Option WorkflowError
check_step run step =
    if is_knowledge step.kind && not (is_some run.project_id)
    then some no_project
    else if is_knowledge step.kind && is_empty_list run.document_ids
    then some documents_disabled
    else if differs step.specification run.specification
    then some other_specification
    else none

unfoldable pub check_steps : Run → List PlanStep → Option WorkflowError
check_steps run [] = none
check_steps run (step ∷ steps) =
    let rest = check_steps run steps in elim (check_step run step) [ none ↦ rest | some e ↦ some e ]

-- `none` for a plan that raises nothing.
unfoldable pub validate_plan : Run → TaskPlan → Option WorkflowError
validate_plan run plan =
    if is_research run.workflow_kind && not (str_eq plan.goal run.objective)
    then some goal_not_preserved
    else if is_research run.workflow_kind
        && any (λ (step : PlanStep). is_training step.kind) plan.steps
    then some not_a_research_step
    else if is_research run.workflow_kind
        && is_document_analysis run.workflow_kind
        && any (λ (step : PlanStep). not (is_knowledge step.kind)) plan.steps
    then some not_a_knowledge_step
    else if not (is_research run.workflow_kind)
        && not (any (λ (step : PlanStep). is_experiment step.kind) plan.steps)
    then some no_experiment_step
    else check_steps run plan.steps

-- orchestration/models.py, with its validator; `none` is its `ValueError`.
pub record PlanRevision : Type 0 where
  pub plan : TaskPlan
  pub rerun_steps : List String
  pub reason : String

unfoldable pub validate_reruns : PlanRevision → Option PlanRevision
validate_reruns revision =
    if is_subset revision.rerun_steps (map (λ (step : PlanStep). step.id) revision.plan.steps)
    then some revision
    else none

-- A set that grows until no step outside depends on it; a turn that goes on adds a step.
unfoldable pub downstream : TaskPlan → List String → List String
downstream plan affected = close_affected (suc (length plan.steps)) plan.steps affected

abbrev same_entry : Option PlanStep → Option PlanStep → Bool
same_entry (some a) (some b) = same_step a b
same_entry _ _ = false

-- `{key for key in new if key not in old or new[key] != old[key]}`.
unfoldable pub changed_keys : Table PlanStep → Table PlanStep → List String
changed_keys old new = keep_if (λ key. not (same_entry (get old key) (get new key))) (keys new)

abbrev kind_at : Table PlanStep → String → Option StepType
kind_at table key = elim (get table key) [ none ↦ none | some step ↦ some step.kind ]

abbrev same_kind_at : Option StepType → Option StepType → Bool
same_kind_at (some a) (some b) = same_kind a b
same_kind_at _ _ = false

-- Every old step is there, with its type, and the goal is the old one.
unfoldable pub retains : TaskPlan → TaskPlan → Bool
retains old new =
    is_subset (keys (by_id old.steps)) (keys (by_id new.steps))
    && str_eq new.goal old.goal
    && all (λ key. same_kind_at (kind_at (by_id new.steps) key) (kind_at (by_id old.steps) key))
        (keys (by_id old.steps))

-- `sum(s.type == "coding" and s.id in affected for s in plan.steps)`.
unfoldable pub repairs_of : TaskPlan → List String → ℕ
repairs_of plan affected =
    length
      (keep_if (λ (step : PlanStep). is_coding step.kind && contains affected step.id) plan.steps)

-- The test of `_check_code_repair_budget`.
unfoldable pub exceeds_repairs : Run → List String → TaskPlan → Bool
exceeds_repairs run affected plan =
    ltb run.budget.limits.code_repairs
      (repairs_of plan affected + used_of run.budget.used "code_repairs")

abbrev issue_steps : ReviewResult → List String
issue_steps review = map (λ (issue : ReviewIssue). issue.step_id) review.issues

unfoldable pub revision_of :
    Run → TaskPlan → ReviewResult → PlanRevision → Result WorkflowError (List String)
revision_of run old review revision =
    let new = revision.plan in
    let affected =
      downstream new (revision.rerun_steps ++ changed_keys (by_id old.steps) (by_id new.steps)) in
    elim (validate_plan run new) [
      | some e ↦ err e
      | none ↦
          if not (retains old new)
          then err step_not_retained
          else if not (length revision.rerun_steps == length (distinct revision.rerun_steps))
          then err reruns_not_unique
          else if not (is_subset (issue_steps review) affected)
          then err issues_not_rerun
          else if exceeds_repairs run affected new
          then err code_repairs_exceeded
          else ok affected
    ]

-- `assert run.plan is not None and run.review is not None`.
unfoldable pub revision_affected : Run → PlanRevision → Result WorkflowError (List String)
revision_affected run revision = elim run.plan [
  | none ↦ err no_plan_or_review
  | some plan ↦ elim run.review [
    | none ↦ err no_plan_or_review
    | some review ↦ revision_of run plan review revision
  ]
]

abbrev keep_source : String → Option (Table String) → Run → Run
keep_source key none run = run
keep_source key (some source) run = record run {
  previous_sources = put run.previous_sources key source;
}

-- The loop over the affected steps.
unfoldable pub retire : List String → Run → Run
retire [] run = run
retire (key ∷ keys) run = retire keys (
    keep_source key (get run.sources key)
      (record run { results = remove run.results key; sources = remove run.sources key }))

-- The end of `_replanner`, with an accepted revision.
unfoldable pub apply_revision : Run → PlanRevision → Result WorkflowError Run
apply_revision run revision = elim (revision_affected run revision) [
  | err e ↦ err e
  | ok affected ↦
      ok (record (retire affected run) { plan = some revision.plan; version = suc run.version })
]
