-- ===== src/Worker/Unit.antt =====
-- orchestration/durable.py, `_unit`: one unit of work at a stage, and the stage that comes next.
use auto_scholar.Prelude.{
  ℕ, ◌-◌, false, not, ◌&&◌, Option, none, some, List, all, length, ◌==◌, str_eq, if◌then◌else◌,
}
use auto_scholar.Prelude.Table.{get}
use auto_scholar.Prelude.Result.{pure, raise, gets, refuse_if, ◌>>=◌, ◌>>◌}
use auto_scholar.Budget.{consume}
use auto_scholar.Plan.{PlanStep, TaskPlan, keys}
use auto_scholar.Plan.Progress.{ready_step}
use auto_scholar.Snapshot.{
  Stage, planner, executor, quality, reviewer, replanner, writer, done, pass, replan, ReviewResult,
  is_research,
}
use auto_scholar.Runs.{Run}
use auto_scholar.Durable.Work.{journal}
use auto_scholar.Worker.{Flow, World, raised, no_code, on_db, on_budget, Agents, Claim, is_text}

-- orchestration/service.py, `_after_execution`.
unfoldable pub after_execution : Run → Stage
after_execution run =
    if is_research run.workflow_kind
      && not (str_eq run.research_depth "quick")
      && all (λ (key, item). is_text (get item "status") "succeeded") run.results
    then quality
    else reviewer

-- `core/journal.py`, `persist_budget`, by the worker's journal.
unfoldable pub persist_budget : ℕ → Claim → Flow (Unit {0})
persist_budget now claim = do
  run ← gets (λ (w : World). w.run)
  on_db (
      journal now claim.task_id claim.owner claim.generation "" "budget" false run.budget.used
        (now - run.budget.started))

unfoldable pub work_on : ℕ → Claim → Agents → Option PlanStep → Flow (Unit {0})
unfolding persist_budget
work_on now claim agents none = pure tt
work_on now claim agents (some step) = do
  on_budget (consume now "steps" 1)
  persist_budget now claim
  agents.step step

-- `assert run.plan is not None`.
unfoldable pub plan_steps : Option TaskPlan → Flow (List PlanStep)
plan_steps none = raise no_code
plan_steps (some plan) = pure plan.steps

abbrev pub next_step : World → Option PlanStep
next_step w = elim w.run.plan [
  | none ↦ none
  | some plan ↦ ready_step plan.steps (keys w.run.results)
]

-- The stage once the step is done: on to the next one, or what follows the last.
unfoldable pub next_stage : List PlanStep → Flow Stage
next_stage steps = do
  run ← gets (λ (w : World). w.run)
  pure (if length run.results == length steps then after_execution run else executor)

unfoldable pub run_executor : ℕ → Claim → Agents → Flow Stage
unfolding work_on plan_steps next_stage
run_executor now claim agents = do
  planned ← gets (λ (w : World). w.run.plan)
  plan_steps planned
  ready ← gets next_step
  work_on now claim agents ready
  revised ← gets (λ (w : World). w.run.plan)
  steps ← plan_steps revised
  next_stage steps

-- The stage after a review; `none` fails the assertion.
unfoldable pub after_review : Option ReviewResult → Flow Stage
after_review none = raise no_code
after_review (some review) = pure (elim review.status [ pass ↦ writer | replan ↦ replanner ])

unfoldable pub after_verdict : Flow Stage
unfolding after_review
after_verdict = do review ← gets (λ (w : World). w.run.review); after_review review

unfoldable pub after_quality : Flow Stage
after_quality = do
  run ← gets (λ (w : World). w.run)
  pure (if str_eq run.quality.phase "done" then reviewer else quality)

unfoldable pub unit : ℕ → Claim → Agents → Stage → Flow Stage
unfolding run_executor after_verdict after_quality after_execution
unit now claim agents planner = do agents.remember; agents.planner; pure executor
unit now claim agents executor = run_executor now claim agents
unit now claim agents quality = do agents.quality; after_quality
unit now claim agents reviewer = do agents.reviewer; after_verdict
unit now claim agents replanner = do agents.remember; agents.replanner; pure executor
unit now claim agents writer = do
  issues ← agents.rules
  refuse_if issues (raised "checkpoint_integrity_failed")
  agents.writer
  pure done
unit now claim agents done = pure done
