-- ===== src/Plan/Progress.antt =====
-- orchestration/durable.py and orchestration/service.py: the executor takes the first step that has
-- no result and whose dependencies have results. A valid plan always has one, until it is finished.
use auto_scholar.Prelude.{
  String, ◌≡◌, refl, Bool, true, false, not, ◌&&◌, Option, some, List, [], ◌∷◌, inl, inr, arith,
  any, all, find, Bool-cases, length,
}
use auto_scholar.Prelude.Sets.{contains, is_subset}
use auto_scholar.Prelude.Result.{ok}
use auto_scholar.Plan.{PlanStep, TaskPlan, by_id, keys, resolves, validate_graph}
use auto_scholar.Plan.Index.{get_key, finished_steps, indexed_step}
use auto_scholar.Plan.Resolve.{IsOpen, resolves-IsOpen}

-- `step.id not in run.results and set(step.dependencies) <= run.results.keys()`.
abbrev pub is_ready : List String → PlanStep → Bool
is_ready results step = not (contains results step.id) && is_subset step.dependencies results

-- `next((step for step in steps if ...), None)`.
unfoldable pub ready_step : List PlanStep → List String → Option PlanStep
ready_step steps results = find (is_ready results) steps

find-any :
    (p : PlanStep → Bool) (steps : List PlanStep)
    → any p steps ≡ true
    → (s : PlanStep) × (find p steps ≡ some s) × (p s ≡ true)
find-any p [] h = absurd (cc)
find-any p (step ∷ steps) h = elim (Bool-cases (p step)) [
  | inl here ↦ (step, rw here, here)
  | inr later ↦ let (s, found, good) = find-any p steps (rw later at h) in (s, rw later found, good)
]

valid_resolves :
    (plan : TaskPlan)
    → validate_graph plan ≡ ok plan
    → resolves (by_id plan.steps) (length (keys (by_id plan.steps))) (keys (by_id plan.steps)) []
      ≡ true
unfolding validate_graph
valid_resolves plan h = ground arith

open_ready :
    (steps : List PlanStep) (results : List String) (key : String)
    → IsOpen (by_id steps) (keys (by_id steps)) results key
    → any (is_ready results) steps ≡ true
open_ready steps results key o =
    let (s, row) = get_key (by_id steps) key o.waits in
    let (_, named) = indexed_step (λ _. true) steps key s row refl in
    let resolved : is_subset s.dependencies results ≡ true = rw row at o.resolved in
    let waits : contains results s.id ≡ false = rw named o.unfinished in
    (indexed_step (is_ready results) steps key s row (rw (waits, resolved))).0

-- For a plan that the validator accepts, whatever steps have results: if a step has none, then the
-- executor finds a step, and that step has no result itself and only dependencies that have one.
pub executor_never_stuck :
    (plan : TaskPlan) (results : List String)
    → validate_graph plan ≡ ok plan
    → all (λ step. contains results step.id) plan.steps ≡ false
    → (step : PlanStep) × (ready_step plan.steps results ≡ some step)
      × (contains results step.id ≡ false)
      × (is_subset step.dependencies results ≡ true)
unfolding ready_step
executor_never_stuck plan results valid unfinished =
    elim (resolves-IsOpen (by_id plan.steps) _ (keys (by_id plan.steps)) [] results
      (valid_resolves plan valid) refl) [
        | inl finished ↦ absurd (cc (unfinished, finished_steps plan.steps [] results finished))
        | inr (key, o) ↦
            let (step, found, good) =
              find-any (is_ready results) plan.steps (open_ready plan.steps results key o) in
            (step, found, ground (arith, good), ground (arith, good))
      ]
