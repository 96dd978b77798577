-- ===== src/Workflow/Rules.antt =====
-- orchestration/service.py, `_validate_plan`: which plans a workflow may have.
use auto_scholar.Prelude.{
  String, Bool, true, false, not, Option, none, some, List, [], ◌∷◌, ◌≡◌, ◌≢◌, ◌↔◌, refl, inl, inr,
  any, is_some, arith, eq_iff, Bool-cases, Option-cases,
}
use auto_scholar.Plan.{
  ExperimentSpecification, StepType, research, knowledge, coding, experiment, PlanStep, TaskPlan,
  is_experiment,
}
use auto_scholar.Snapshot.{is_research, is_document_analysis}
use auto_scholar.Runs.{Run}
use auto_scholar.Workflow.{
  Specification-discrete, same_specification, is_training, is_knowledge, is_empty_list, differs,
  check_step, check_steps, validate_plan,
}

-- A step reads documents only if there are some, and may repeat the run's specification, not change it.
abbrev pub IsAllowedStep : Run → PlanStep → Type 0
IsAllowedStep run step =
    (step.kind ≡ knowledge → (run.project_id ≢ none) × (run.document_ids ≢ some []))
    × ((own : ExperimentSpecification) → step.specification ≡ some own → own ≡ run.specification)

abbrev pub AllSteps : (PlanStep → Type 0) → List PlanStep → Type 0
AllSteps P [] = Unit
AllSteps P (step ∷ steps) = P step × AllSteps P steps

-- The rules: research keeps the objective as its goal and trains nothing, the analysis of documents
-- reads documents only, and an experiment has an experiment step.
pub record IsAllowed (run : Run) (plan : TaskPlan) : Type 0 where
  pub goal : is_research run.workflow_kind ≡ true → plan.goal ≡ run.objective
  pub no_training :
      is_research run.workflow_kind ≡ true
      → AllSteps (λ step. (step.kind ≢ coding) × (step.kind ≢ experiment)) plan.steps
  pub documents :
      is_document_analysis run.workflow_kind ≡ true
      → AllSteps (λ step. step.kind ≡ knowledge) plan.steps
  pub experiments :
      is_research run.workflow_kind ≡ false
      → any (λ (step : PlanStep). is_experiment step.kind) plan.steps ≡ true
  pub steps : AllSteps (IsAllowedStep run) plan.steps

same_specification_iff : (a b : ExperimentSpecification) → (same_specification a b ≡ true) ↔ (a ≡ b)
unfolding Specification-discrete
same_specification_iff a b =
    elim (Specification-discrete a b)
      as (λ d. (elim d [ yes _ ↦ true | no _ ↦ false ] ≡ true) ↔ (a ≡ b)) [
        | yes e ↦ (λ _. e, λ _. refl)
        | no n ↦ (λ k. absurd (cc), λ e. absurd (n e))
      ]

differs_iff :
    (o : Option ExperimentSpecification) (s : ExperimentSpecification)
    → (differs o s ≡ false) ↔ ((own : ExperimentSpecification) → o ≡ some own → own ≡ s)
differs_iff none s = (λ _ own e. absurd (cc), λ _. refl)
differs_iff (some a) s = (
  λ h own e. let same = (same_specification_iff a s).0 (ground arith) in cc,
  λ h. let same = (same_specification_iff a s).1 (h a refl) in rw same refl,
)

knowledge_iff : (k : StepType) → (is_knowledge k ≡ true) ↔ (k ≡ knowledge)
knowledge_iff research = (λ h. absurd (cc), λ h. absurd (cc))
knowledge_iff knowledge = (λ h. refl, λ h. refl)
knowledge_iff coding = (λ h. absurd (cc), λ h. absurd (cc))
knowledge_iff experiment = (λ h. absurd (cc), λ h. absurd (cc))

not_knowledge_iff : (k : StepType) → (not (is_knowledge k) ≡ false) ↔ (k ≡ knowledge)
not_knowledge_iff research = (λ h. absurd (cc), λ h. absurd (cc))
not_knowledge_iff knowledge = (λ h. refl, λ h. refl)
not_knowledge_iff coding = (λ h. absurd (cc), λ h. absurd (cc))
not_knowledge_iff experiment = (λ h. absurd (cc), λ h. absurd (cc))

training_iff : (k : StepType) → (is_training k ≡ false) ↔ ((k ≢ coding) × (k ≢ experiment))
training_iff research = (λ h. (λ e. cc, λ e. cc), λ h. refl)
training_iff knowledge = (λ h. (λ e. cc, λ e. cc), λ h. refl)
training_iff coding = (λ h. absurd (cc), λ h. absurd (h.0 refl))
training_iff experiment = (λ h. absurd (cc), λ h. absurd (h.1 refl))

is_some_iff : (o : Option String) → (is_some o ≡ true) ↔ (o ≢ none)
is_some_iff none = (λ h. absurd (cc), λ h. absurd (h refl))
is_some_iff (some a) = (λ h e. cc, λ h. refl)

is_empty_list_iff : (o : Option (List String)) → (is_empty_list o ≡ false) ↔ (o ≢ some [])
is_empty_list_iff none = (λ h e. cc, λ h. refl)
is_empty_list_iff (some []) = (λ h. absurd (cc), λ h. absurd (h refl))
is_empty_list_iff (some (x ∷ xs)) = (λ h e. cc, λ h. refl)

check_step_iff :
    (run : Run) (step : PlanStep) → (check_step run step ≡ none) ↔ IsAllowedStep run step
unfolding check_step
check_step_iff run step =
    let kind = knowledge_iff step.kind in
    let own = differs_iff step.specification run.specification in
    (
      λ h. (
        λ k.
            let reads = kind.1 k in
            (
              (is_some_iff run.project_id).0 (ground arith),
              (is_empty_list_iff run.document_ids).0 (ground arith),
            ),
        own.0 (ground arith),
      ),
      λ a.
          let same = own.1 a.1 in
          elim (Bool-cases (is_knowledge step.kind)) [
            | inl reads ↦
                let allowed = a.0 (kind.0 reads) in
                let project = (is_some_iff run.project_id).1 allowed.0 in
                let documents = (is_empty_list_iff run.document_ids).1 allowed.1 in
                rw (reads, project, documents, same) refl
            | inr other ↦ rw (other, same) refl
          ],
    )

check_steps_iff :
    (run : Run) (steps : List PlanStep)
    → (check_steps run steps ≡ none) ↔ AllSteps (IsAllowedStep run) steps
unfolding check_steps
check_steps_iff run [] = (λ _. tt, λ _. refl)
check_steps_iff run (step ∷ steps) =
    let one = check_step_iff run step in
    let rest = check_steps_iff run steps in
    elim (Option-cases (check_step run step)) [
      | inl passes ↦ (
        λ h. (one.0 passes, rest.0 (rw (passes, check_steps) at h)),
        λ a. rw (passes, check_steps) (rest.1 a.1),
      )
      | inr (e, fails) ↦
          (λ h. absurd (cc (rw (fails, check_steps) at h)), λ a. absurd (cc (fails, one.1 a.0)))
    ]

any-AllSteps :
    (test : PlanStep → Bool) (P : PlanStep → Type 0) (steps : List PlanStep)
    → ((step : PlanStep) → (test step ≡ false) ↔ P step)
    → (any test steps ≡ false) ↔ AllSteps P steps
any-AllSteps test P [] h = (λ _. tt, λ _. refl)
any-AllSteps test P (step ∷ steps) h =
    let rest = any-AllSteps test P steps h in
    elim (Bool-cases (test step)) [
      | inl bad ↦ (λ k. absurd (ground arith), λ a. absurd (cc (bad, (h step).1 a.0)))
      | inr good ↦ (λ k. ((h step).0 good, rest.0 (ground arith)), λ a. rw good (rest.1 a.1))
    ]

analysis-is_research :
    (run : Run)
    → is_document_analysis run.workflow_kind ≡ true
    → is_research run.workflow_kind ≡ true
analysis-is_research run h = ground arith

-- A plan raises no error exactly if it obeys the rules. Research keeps the objective as its goal and
-- has no coding and no experiment step, and the analysis of documents has only steps that read
-- documents; any other workflow has an experiment step. A step reads documents only if the run has a
-- project and its documents are not switched off, and a step's own specification is the run's.
pub validate_plan_iff :
    (run : Run) (plan : TaskPlan) → (validate_plan run plan ≡ none) ↔ IsAllowed run plan
unfolding validate_plan
validate_plan_iff run plan =
    let training =
      any-AllSteps (λ step. is_training step.kind)
        (λ step. (step.kind ≢ coding) × (step.kind ≢ experiment)) plan.steps
        (λ step. training_iff step.kind) in
    let documents =
      any-AllSteps (λ step. not (is_knowledge step.kind)) (λ step. step.kind ≡ knowledge) plan.steps
        (λ step. not_knowledge_iff step.kind) in
    let steps = check_steps_iff run plan.steps in
    let goal = eq_iff plan.goal run.objective in
    (
      λ h. record {
        goal = λ r. goal.0 (ground arith);
        no_training = λ r. training.0 (ground arith);
        documents = λ r. let k = analysis-is_research run r in documents.0 (ground arith);
        experiments = λ r. ground arith;
        steps = steps.0 (ground arith);
      },
      λ a. elim (Bool-cases (is_research run.workflow_kind)) [
        | inl r ↦
            let same = goal.1 (a.goal r) in
            let quiet = training.1 (a.no_training r) in
            let checked = steps.1 a.steps in
            elim (Bool-cases (is_document_analysis run.workflow_kind)) [
              | inl d ↦
                  let reads = documents.1 (a.documents d) in rw (r, same, quiet, d, reads) checked
              | inr d ↦ rw (r, same, quiet, d) checked
            ]
        | inr r ↦ let trains = a.experiments r in rw (r, trains) (steps.1 a.steps)
      ],
    )
