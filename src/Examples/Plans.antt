-- ===== src/Examples/Plans.antt =====
-- orchestration/models.py and the executor at concrete plans.
use auto_scholar.Prelude.{
  ℕ, String, ◌≡◌, ◌≢◌, refl, true, false, none, some, List, [], ◌∷◌, Bool-cases, inl, inr, sym,
  if◌then◌else◌, arith, eq_iff, str_eq,
}
use auto_scholar.Prelude.Table.{get, put}
use auto_scholar.Prelude.Sets.{contains, distinct, is_subset}
use auto_scholar.Prelude.Result.{ok, err}
use auto_scholar.Plan.{
  PlanStep, TaskPlan, research, cycle, by_id, index, resolves, validate_graph, first_error,
  check_step, check_coding, knowledge, coding,
}
use auto_scholar.Durable.Approvals.{dependents, affected_steps}
use auto_scholar.Durable.Approvals.Affected.{changed_steps, affected_closed}
use auto_scholar.Plan.Complete.{IsRanked}
use auto_scholar.Plan.Acyclic.{ranked_not_cycle}
use auto_scholar.Plan.Progress.{ready_step, executor_never_stuck}
use auto_scholar.Plan.Execution.{StepAction}
use auto_scholar.Budget.{Budget, BudgetError, default_limits}

abbrev step_of : String → List String → PlanStep
step_of id dependencies = record {
  id = id;
  kind = research;
  description = id;
  dependencies = dependencies;
  expected_output = "notes";
  specification = none;
}

-- The second step comes first in the list.
abbrev two_steps : TaskPlan
two_steps = record { goal = "survey"; steps = step_of "b" ("a" ∷ []) ∷ step_of "a" [] ∷ [] }

two_steps_valid : validate_graph two_steps ≡ ok two_steps
unfolding validate_graph index put first_error check_step distinct resolves get check_coding
two_steps_valid = refl

executor_never_stuck_example :
    (step : PlanStep) × (ready_step two_steps.steps ("a" ∷ []) ≡ some step)
    × (contains ("a" ∷ []) step.id ≡ false)
    × (is_subset step.dependencies ("a" ∷ []) ≡ true)
executor_never_stuck_example = executor_never_stuck two_steps ("a" ∷ []) two_steps_valid refl

-- Steps that succeed at once and leave the budget as it is.
abbrev at_once : StepAction BudgetError
at_once step b = (ok tt, b)

abbrev paying : Budget
paying = record { limits = default_limits; used = []; started = 1 }

abbrev height : String → ℕ
height id = if str_eq "b" id then 1 else 0

height-IsRanked : IsRanked (by_id two_steps.steps) height
unfolding index get put
height-IsRanked = record {
  lower = λ key d needs. elim (Bool-cases (str_eq "b" key)) [
    | inl top ↦
        let asked : contains ("a" ∷ []) d ≡ true = rw top at needs in
        let low : "a" ≡ d = ground (arith, eq_iff "a" d) in rw top (rw (sym low) (omega arith))
    | inr other ↦ elim (Bool-cases (str_eq "a" key)) [
      | inl bottom ↦ absurd (ground (arith, other, bottom))
      | inr unknown ↦ absurd (ground (arith, other, unknown))
    ]
  ];
}

ranked_not_cycle_example : validate_graph two_steps ≢ err cycle
ranked_not_cycle_example = ranked_not_cycle two_steps height height-IsRanked

-- The experiment and the report that depends on the code.
abbrev code_first : List PlanStep
code_first =
    record (step_of "b" ("a" ∷ [])) { kind = knowledge }
    ∷ record (step_of "a" []) { kind = coding }
    ∷ step_of "c" []
    ∷ []

affected_closed_example :
    (is_subset (changed_steps code_first) (affected_steps code_first) ≡ true)
    × (is_subset (dependents code_first (affected_steps code_first)) (affected_steps code_first)
        ≡ true)
affected_closed_example = affected_closed code_first
