-- ===== src/Examples/Revisions.antt =====
-- orchestration/service.py: a plan of two steps, and its revision after a review of the first.
use auto_scholar.Prelude.{String, ◌≡◌, refl, ◌↔◌, none, some, List, [], ◌∷◌}
use auto_scholar.Prelude.Table.{get, put}
use auto_scholar.Prelude.Text.{String-discrete}
use native.Mathlib.Decide.{ℕ_discrete}
use auto_scholar.Prelude.Sets.{distinct}
use auto_scholar.Prelude.Result.{ok}
use auto_scholar.Plan.{PlanStep, TaskPlan, research, index}
use auto_scholar.Snapshot.{text, replan, ReviewResult}
use auto_scholar.Runs.{Run, restore}
use auto_scholar.Durable.Approvals.{close_affected}
use auto_scholar.Workflow.{
  PlanRevision, PlanStep-discrete, StepType-discrete, validate_plan, check_steps, check_step,
  apply_revision, revision_affected, revision_of, retains, downstream, changed_keys,
  exceeds_repairs, repairs_of, retire,
}
use auto_scholar.Workflow.Rules.{IsAllowed, validate_plan_iff}
use auto_scholar.Workflow.Revision.{IsRevised, apply_revision-IsRevised}
use auto_scholar.Examples.Queues.{survey}

abbrev step_of : String → String → List String → PlanStep
step_of id description dependencies = record {
  id = id;
  kind = research;
  description = description;
  dependencies = dependencies;
  expected_output = "notes";
  specification = none;
}

abbrev two_steps : TaskPlan
two_steps = record {
  goal = "a survey";
  steps = step_of "a" "search" [] ∷ step_of "b" "compare" ("a" ∷ []) ∷ [];
}

abbrev gap : ReviewResult
gap = record {
  status = replan;
  issues = record { code = "gap"; step_id = "a"; message = "period" } ∷ [];
  suggested_steps = "a" ∷ [];
}

abbrev executed : Run
executed = record (restore survey [] 0 2) {
  plan = some two_steps;
  review = some gap;
  results =
      ("a", ("status", text "succeeded") ∷ []) ∷ ("b", ("status", text "succeeded") ∷ []) ∷ [];
}

validate_plan_iff_example : (validate_plan executed two_steps ≡ none) ↔ IsAllowed executed two_steps
validate_plan_iff_example = validate_plan_iff executed two_steps

abbrev again : PlanRevision
again = record { plan = two_steps; rerun_steps = "a" ∷ []; reason = "the period is missing" }

abbrev revised : Run
revised = record (retire ("b" ∷ "a" ∷ []) executed) { plan = some two_steps; version = 2 }

revised_ok : apply_revision executed again ≡ ok revised
unfolding apply_revision revision_affected revision_of validate_plan check_steps check_step retains
    downstream close_affected changed_keys exceeds_repairs repairs_of distinct index get put
    PlanStep-discrete StepType-discrete String-discrete ℕ_discrete restore retire
revised_ok = refl

apply_revision-IsRevised_example :
    (affected : List String) × IsRevised two_steps gap again affected executed revised
unfolding restore retire
apply_revision-IsRevised_example =
    apply_revision-IsRevised executed two_steps gap again refl refl revised_ok
