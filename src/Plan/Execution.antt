-- ===== src/Plan/Execution.antt =====
-- orchestration/service.py, `_executor`: one ready step at a time, each of which gets a result, whether it
-- succeeds, fails or raises. The executor stage of `_unit` in orchestration/durable.py makes the same turns.
use auto_scholar.Prelude.{
  ℕ, zero, suc, String, ◌≡◌, true, false, not, none, some, List, [], ◌∷◌, map, all, keep_if, length,
  is_empty,
}
use auto_scholar.Prelude.Sets.{contains, is_subset}
use auto_scholar.Prelude.Result.{Exec, ok, err}
use auto_scholar.Budget.{Budget, BudgetError, consume}
use auto_scholar.Plan.{PlanStep}
use auto_scholar.Plan.Progress.{ready_step}

abbrev pub ids : List PlanStep → List String
ids steps = map (λ step. step.id) steps

abbrev pub waiting : List PlanStep → List String → List PlanStep
waiting steps results = keep_if (λ step. not (contains results step.id)) steps

-- How the loop ends. Python's `next` raises on an empty choice; the last is no end of the code, but of the
-- turns that the model allows.
pub data Halt (E : Type 0) : Type 0 where
  finished : Halt E
  over : BudgetError → Halt E
  raised : E → Halt E
  stuck : Halt E
  out_of_turns : Halt E

-- `_step`: what it does to the budget, and whether it raises. Either way the step has a result then.
abbrev pub StepAction : Type 0 → Type 0
StepAction E = PlanStep → Exec E Budget (Unit {0})

-- `_executor`: the end, the steps that have a result, the latest first, and the budget. The time at which a
-- turn consumes its step is a function of the number of the turn.
unfoldable pub execute :
    {E : Type 0}
    → (ℕ → ℕ)
    → StepAction E
    → ℕ
    → List PlanStep
    → List PlanStep
    → Budget
    → Halt E × List PlanStep × Budget
execute times action zero steps executed b = (out_of_turns, executed, b)
execute times action (suc turns) steps executed b = elim (is_empty (waiting steps (ids executed))) [
  | true ↦ (finished, executed, b)
  | false ↦ elim (ready_step steps (ids executed)) [
    | none ↦ (stuck, executed, b)
    | some step ↦
        let paid = consume (times (length executed)) "steps" 1 b in
        elim paid.0 [
          | err e ↦ (over e, executed, paid.1)
          | ok _ ↦
              let acted = action step paid.1 in
              elim acted.0 [
                | err e ↦ (raised e, step ∷ executed, acted.1)
                | ok _ ↦ execute times action turns steps (step ∷ executed) acted.1
              ]
        ]
  ]
]

-- Every step came after its dependencies, and none came twice.
abbrev pub InOrder : List PlanStep → Type 0
InOrder [] = Unit {0}
InOrder (step ∷ earlier) =
    (is_subset step.dependencies (ids earlier) ≡ true)
    × (contains (ids earlier) step.id ≡ false)
    × InOrder earlier

module _ {E : Type 0} (times : ℕ → ℕ) (action : StepAction E) where
  -- The plan is executed to its end, or a step is not paid for, or a step raises.
  abbrev pub IsEnd : List PlanStep → Halt E → List PlanStep → Type 0
  IsEnd steps finished executed = all (λ step. contains (ids executed) step.id) steps ≡ true
  IsEnd steps (over e) executed = (now : ℕ) × (b : Budget) × ((consume now "steps" 1 b).0 ≡ err e)
  IsEnd steps (raised e) executed = (step : PlanStep) × (b : Budget) × ((action step b).0 ≡ err e)
  IsEnd steps stuck executed = ⊥
  IsEnd steps out_of_turns executed = ⊥

  -- An end of the steps, with the steps that have a result in an order that the plan allows.
  abbrev pub EndsWell : List PlanStep → Halt E × List PlanStep × Budget → Type 0
  EndsWell steps out = IsEnd steps out.0 out.1 × InOrder out.1
