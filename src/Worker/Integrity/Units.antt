-- ===== src/Worker/Integrity/Units.antt =====
-- orchestration/durable.py: a unit, and what recovery makes of one, keep the database integral.
use auto_scholar.Prelude.{
  ℕ, ◌-◌, Bool, true, false, Option, none, some, List, [], ◌∷◌, keep_if, is_some,
}
use auto_scholar.Prelude.Table.{Table, get, put}
use auto_scholar.Prelude.Result.{Result, ok, err, raise, gets, modify, refuse_if}
use auto_scholar.Budget.{consume}
use auto_scholar.Plan.{PlanStep, TaskPlan, validate_graph}
use auto_scholar.Workflow.{validate_plan}
use auto_scholar.Snapshot.{
  Value, Stage, planner, executor, quality, reviewer, replanner, writer, done, ReviewResult,
  validate_verdict, pass, replan,
}
use auto_scholar.Runs.{Run}
use auto_scholar.Durable.Integrity.Works.{journal-IsIntegral}
use auto_scholar.Worker.{World, Failure, raised, no_code, Agents, Claim, Files, on_budget, is_text}
use auto_scholar.Worker.Unit.{
  unit, run_executor, work_on, persist_budget, plan_steps, next_step, next_stage, after_review,
  after_verdict, after_quality,
}
use auto_scholar.Worker.Reconcile.{
  Records, StepAttempt, reconcile, recover_run, recover_executor, recover_step, recover_planner,
  recover_reviewer, ended_attempt, is_attempt_of, of_version, recovered_source, with_source,
  last_call, lift, on_run, uncertain, verify_sources, sources_failure, refuse_some,
}
use auto_scholar.Worker.Integrity.{
  Steady, Stays, Anyway, AreCareful, Steady-keeps, Steady-pure, Steady-if, Steady-bind,
}

-- What only reads, or changes only the run in memory.
pub read_only : {A : Type 0} (f : World → A) → Steady (gets {E = Failure} f) Anyway
read_only f = Steady-keeps (gets f) (λ w i. i)

pub refuses : (test : Bool) (e : Failure) → Steady (refuse_if test e) Anyway
refuses test e = Steady-keeps (refuse_if test e) (kept test)
  where
    kept : (b : Bool) → Stays (refuse_if b e)
    kept true w i = i
    kept false w i = i

persist_budget-Steady : (now : ℕ) (claim : Claim) → Steady (persist_budget now claim) Anyway
unfolding persist_budget
persist_budget-Steady now claim = Steady-keeps (persist_budget now claim) (λ w i.
    journal-IsIntegral now claim.task_id claim.owner claim.generation "" "budget" false
      w.run.budget.used (now - w.run.budget.started) w.db i)

pub plan_steps-Steady : (plan : Option TaskPlan) → Steady (plan_steps plan) Anyway
unfolding plan_steps
plan_steps-Steady none = Steady-keeps (plan_steps none) (λ w i. i)
plan_steps-Steady (some plan) = Steady-keeps (plan_steps (some plan)) (λ w i. i)

after_review-Steady : (review : Option ReviewResult) → Steady (after_review review) Anyway
unfolding after_review
after_review-Steady none = Steady-keeps (after_review none) (λ w i. i)
after_review-Steady (some review) = Steady-keeps (after_review (some review)) (λ w i. i)

module _ (now : ℕ) (claim : Claim) (agents : Agents) (careful : AreCareful agents) where
  work_on-Steady : (ready : Option PlanStep) → Steady (work_on now claim agents ready) Anyway
  unfolding work_on
  work_on-Steady none = Steady-pure Anyway tt tt
  work_on-Steady (some step) =
      Steady-bind (Steady-keeps (on_budget (consume now "steps" 1)) (λ w i. i)) (λ _ _.
        Steady-bind (persist_budget-Steady now claim)
          (λ _ _. Steady-keeps (agents.step step) (careful.step step)))

  run_executor-Steady : Steady (run_executor now claim agents) Anyway
  unfolding run_executor next_stage
  run_executor-Steady = Steady-bind (read_only (λ (w : World). w.run.plan)) (λ planned _.
      Steady-bind (plan_steps-Steady planned) (λ _ _. Steady-bind (read_only next_step) (λ ready _.
        Steady-bind (work_on-Steady ready) (λ _ _.
          Steady-bind (read_only (λ (w : World). w.run.plan)) (λ revised _.
            Steady-bind (plan_steps-Steady revised)
              (λ steps _. Steady-keeps (next_stage steps) (λ w i. i)))))))

  pub unit-Steady : (stage : Stage) → Steady (unit now claim agents stage) Anyway
  unfolding unit after_quality after_verdict
  unit-Steady planner = Steady-bind (Steady-keeps agents.remember careful.remember) (λ _ _.
      Steady-bind (Steady-keeps agents.planner careful.planner)
        (λ _ _. Steady-pure Anyway executor tt))
  unit-Steady executor = run_executor-Steady
  unit-Steady quality =
      Steady-bind (Steady-keeps agents.quality careful.quality)
        (λ _ _. Steady-keeps (after_quality) (λ w i. i))
  unit-Steady reviewer =
      Steady-bind (Steady-keeps agents.reviewer careful.reviewer) (λ _ _.
        Steady-keeps (after_verdict) (λ w i. (after_review-Steady w.run.review).integral w i))
  unit-Steady replanner = Steady-bind (Steady-keeps agents.remember careful.remember) (λ _ _.
      Steady-bind (Steady-keeps agents.replanner careful.replanner)
        (λ _ _. Steady-pure Anyway executor tt))
  unit-Steady writer = Steady-bind (Steady-keeps agents.rules careful.rules) (λ issues _.
      Steady-bind (refuses issues (raised "checkpoint_integrity_failed")) (λ _ _.
        Steady-bind (Steady-keeps agents.writer careful.writer)
          (λ _ _. Steady-pure Anyway done tt)))
  unit-Steady done = Steady-pure Anyway done tt

-- Recovery reads the records and writes the run.
changes : (f : Run → Run) → Steady (modify {E = Failure} (on_run f)) Anyway
changes f = Steady-keeps (modify (on_run f)) (λ w i. i)

pub lifts : {A : Type 0} (r : Result Failure A) → Steady (lift r) Anyway
lifts r = Steady-keeps (lift r) (λ w i. i)

module _ (files : Files) (records : Records) where
  recover_step-Steady : (item : StepAttempt) → Steady (recover_step files records item) Anyway
  unfolding recover_step
  recover_step-Steady item =
      Steady-bind
        (refuses (is_text (get item.result "error_code") "autonomous_budget_or_cancelled")
          uncertain)
        (λ _ _.
          Steady-bind
            (changes (λ run. record run { results = put run.results item.step_id item.result }))
            (λ _ _. Steady-bind (lifts (recovered_source files item)) (λ source _.
              Steady-bind (changes (with_source item.step_id source)) (λ _ _.
                Steady-bind (changes (λ run. record run { traces = last_call records.tool_calls }))
                  (λ _ _. Steady-pure Anyway executor tt)))))

  recover_executor-Steady :
      (found : Option StepAttempt) → Steady (recover_executor files records found) Anyway
  unfolding recover_executor
  recover_executor-Steady none = Steady-keeps (raise uncertain) (λ w i. i)
  recover_executor-Steady (some item) = recover_step-Steady item

  recover_planner-Steady : (plans : List (ℕ × TaskPlan)) → Steady (recover_planner plans) Anyway
  unfolding recover_planner
  recover_planner-Steady [] = Steady-keeps (raise uncertain) (λ w i. i)
  recover_planner-Steady ((version, plan) ∷ []) =
      Steady-bind
        (lifts (elim (validate_graph plan) as (λ _. Result Failure (Unit {0})) [
          | ok _ ↦ ok tt
          | err _ ↦ err no_code
        ]))
        (λ _ _. Steady-bind (changes (λ run. record run { plan = some plan })) (λ _ _.
          Steady-bind (read_only (λ (w : World). w.run)) (λ run _.
            Steady-bind
              (refuses (is_some (validate_plan run plan)) (raised "autonomous_protocol_invalid"))
              (λ _ _. Steady-pure Anyway executor tt))))
  recover_planner-Steady (first ∷ second ∷ rest) = Steady-keeps (raise uncertain) (λ w i. i)

  recover_reviewer-Steady :
      (reviews : List (ℕ × ReviewResult)) → Steady (recover_reviewer reviews) Anyway
  unfolding recover_reviewer
  recover_reviewer-Steady [] = Steady-keeps (raise uncertain) (λ w i. i)
  recover_reviewer-Steady ((version, review) ∷ []) =
      Steady-bind
        (lifts (elim (validate_verdict review) as (λ _. Result Failure (Unit {0})) [
          | some _ ↦ ok tt
          | none ↦ err no_code
        ]))
        (λ _ _. Steady-bind (changes (λ run. record run { review = some review })) (λ _ _.
          Steady-pure Anyway (elim review.status [ pass ↦ writer | replan ↦ replanner ]) tt))
  recover_reviewer-Steady (first ∷ second ∷ rest) = Steady-keeps (raise uncertain) (λ w i. i)

  recover_run-Steady :
      (active : Table Value) (run : Run) → Steady (recover_run files records active run) Anyway
  unfolding recover_run
  recover_run-Steady active run =
      Steady-if (is_text (get active "stage") "executor")
        (recover_executor-Steady
          (ended_attempt (keep_if (is_attempt_of run.version active) records.attempts)))
        (Steady-if (is_text (get active "stage") "planner")
          (recover_planner-Steady (of_version run.version records.plans))
          (Steady-if (is_text (get active "stage") "reviewer")
            (recover_reviewer-Steady (of_version run.version records.reviews))
            (Steady-if (is_text (get active "stage") "writer") (Steady-pure Anyway writer tt)
              (Steady-keeps (raise uncertain) (λ w i. i)))))

  pub reconcile-Steady : (active : Table Value) → Steady (reconcile files records active) Anyway
  unfolding reconcile
  reconcile-Steady active =
      Steady-bind (read_only (λ (w : World). w.run)) (λ run _. recover_run-Steady active run)

refuse_some-Steady : (o : Option Failure) → Steady (refuse_some o) Anyway
refuse_some-Steady none = Steady-pure Anyway tt tt
refuse_some-Steady (some e) = Steady-keeps (raise e) (λ w i. i)

pub verify_sources-Steady : (files : Files) → Steady (verify_sources files) Anyway
unfolding verify_sources
verify_sources-Steady files =
    Steady-bind (read_only (λ (w : World). w.run))
      (λ run _. refuse_some-Steady (sources_failure files run run.sources))
