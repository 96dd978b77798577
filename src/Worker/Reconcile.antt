-- ===== src/Worker/Reconcile.antt =====
-- orchestration/durable.py, `_reconcile` and `_verify_sources`: what a worker makes of a unit that was
-- interrupted, from the records that it left and without repeating it.
use auto_scholar.Prelude.{
  ℕ, max, String, Bool, not, ◌&&◌, ◌||◌, Option, none, some, List, [], ◌∷◌, keep_if, ◌==◌, str_eq,
  if◌then◌else◌, is_some,
}
use auto_scholar.Prelude.Table.{Table, get, put}
use auto_scholar.Prelude.Result.{Result, ok, err, pure, raise, gets, modify, refuse_if, ◌>>=◌, ◌>>◌}
use auto_scholar.Plan.{TaskPlan, validate_graph}
use auto_scholar.Snapshot.{
  Value, Stage, executor, replanner, writer, pass, replan, ReviewResult, validate_verdict,
}
use auto_scholar.Runs.{Run}
use auto_scholar.Workflow.{validate_plan}
use auto_scholar.Worker.{
  Flow, World, Failure, raised, no_code, Files, same_source, value_text, is_text,
}

-- `workflows.history`: the attempts at steps, the plans and the reviews of the task, and the sequence
-- numbers of its tool calls, if the task is there.
pub record StepAttempt : Type 0 where
  pub plan_version : ℕ
  pub step_id : String
  pub child_task_id : String
  pub status : String
  pub result : Table Value

pub record Records : Type 0 where
  pub attempts : List StepAttempt
  pub plans : List (ℕ × TaskPlan)
  pub reviews : List (ℕ × ReviewResult)
  pub tool_calls : List ℕ

abbrev pub uncertain : Failure
uncertain = raised "operation_uncertain"

abbrev corrupt : Failure
corrupt = raised "checkpoint_integrity_failed"

-- `max(..., default=0)`.
unfoldable pub last_call : List ℕ → ℕ
last_call [] = 0
last_call (n ∷ ns) = max n (last_call ns)

-- `active.get("step_id") == step_id`.
abbrev pub is_attempt_of : ℕ → Table Value → StepAttempt → Bool
is_attempt_of version active item =
    item.plan_version == version && is_text (get active "step_id") item.step_id

-- The source of a child task as it is now, if its digest is the one that was recorded.
unfoldable pub recovered_source : Files → StepAttempt → Result Failure (Option (Table String))
recovered_source files item = elim (value_text (get item.result "source_sha256")) [
  | none ↦ ok none
  | some recorded ↦
      if str_eq recorded "" || is_some (get item.result "experiment_id")
      then ok none
      else elim (files.source_snapshot item.child_task_id) [
        | err code ↦ err (raised code)
        | ok source ↦
            if str_eq (files.source_digest source) recorded then ok (some source) else err corrupt
      ]
]

abbrev pub with_source : String → Option (Table String) → Run → Run
with_source key none run = run
with_source key (some source) run = record run { sources = put run.sources key source }

abbrev pub lift : {A : Type 0} → Result Failure A → Flow A
lift r w = (r, w)

abbrev pub on_run : (Run → Run) → World → World
on_run f w = record w { run = f w.run }

-- The body of the branch for a step with exactly one attempt that ended.
unfoldable pub recover_step : Files → Records → StepAttempt → Flow Stage
unfolding recovered_source last_call
recover_step files records item = do
  refuse_if (is_text (get item.result "error_code") "autonomous_budget_or_cancelled") uncertain
  modify (on_run (λ run. record run { results = put run.results item.step_id item.result }))
  source ← lift (recovered_source files item)
  modify (on_run (with_source item.step_id source))
  modify (on_run (λ run. record run { traces = last_call records.tool_calls }))
  pure executor

-- `len(matches) == 1 and matches[0]["status"] in {"succeeded", "failed"}`.
unfoldable pub ended_attempt : List StepAttempt → Option StepAttempt
ended_attempt (item ∷ []) =
    if str_eq item.status "succeeded" || str_eq item.status "failed" then some item else none
ended_attempt _ = none

unfoldable pub recover_executor : Files → Records → Option StepAttempt → Flow Stage
recover_executor files records none = raise uncertain
recover_executor files records (some item) = recover_step files records item

abbrev pub of_version : {A : Type 0} → ℕ → List (ℕ × A) → List (ℕ × A)
of_version version items = keep_if (λ (n, item). n == version) items

-- A plan that was saved for this version, if it still is a plan and allowed.
unfoldable pub recover_planner : List (ℕ × TaskPlan) → Flow Stage
recover_planner ((version, plan) ∷ []) = do
  lift (elim (validate_graph plan) [ ok _ ↦ ok tt | err _ ↦ err no_code ])
  modify (on_run (λ run. record run { plan = some plan }))
  run ← gets (λ (w : World). w.run)
  refuse_if (is_some (validate_plan run plan)) (raised "autonomous_protocol_invalid")
  pure executor
recover_planner _ = raise uncertain

unfoldable pub recover_reviewer : List (ℕ × ReviewResult) → Flow Stage
recover_reviewer ((version, review) ∷ []) = do
  lift (elim (validate_verdict review) [ some _ ↦ ok tt | none ↦ err no_code ])
  modify (on_run (λ run. record run { review = some review }))
  pure (elim review.status [ pass ↦ writer | replan ↦ replanner ])
recover_reviewer _ = raise uncertain

unfoldable pub recover_run : Files → Records → Table Value → Run → Flow Stage
unfolding recover_executor recover_planner recover_reviewer recover_step ended_attempt
recover_run files records active run =
    if is_text (get active "stage") "executor"
    then recover_executor files records
        (ended_attempt (keep_if (is_attempt_of run.version active) records.attempts))
    else if is_text (get active "stage") "planner"
    then recover_planner (of_version run.version records.plans)
    else if is_text (get active "stage") "reviewer"
    then recover_reviewer (of_version run.version records.reviews)
    else if is_text (get active "stage") "writer"
    then pure writer
    else raise uncertain

unfoldable pub reconcile : Files → Records → Table Value → Flow Stage
unfolding recover_run
reconcile files records active = do
  run ← gets (λ (w : World). w.run)
  recover_run files records active run

-- The loop of `_verify_sources`, for one source.
unfoldable pub source_failure : Files → Run → String → Table String → Option Failure
source_failure files run key source =
    let result : Table Value = elim (get run.results key) [ none ↦ [] | some r ↦ r ] in
    if not (is_text (get result "source_sha256") (files.source_digest source))
    then some corrupt
    else elim (value_text (get result "child_task_id")) [
      | none ↦ some no_code
      | some child ↦ elim (files.source_snapshot child) [
        | err code ↦ some (raised code)
        | ok now ↦ if same_source source now then none else some corrupt
      ]
    ]

unfoldable pub sources_failure : Files → Run → Table (Table String) → Option Failure
sources_failure files run [] = none
sources_failure files run ((key, source) ∷ rest) =
    let later = sources_failure files run rest in
    elim (source_failure files run key source) [ none ↦ later | some e ↦ some e ]

abbrev pub refuse_some : Option Failure → Flow (Unit {0})
refuse_some none = pure tt
refuse_some (some e) = raise e

unfoldable pub verify_sources : Files → Flow (Unit {0})
unfolding sources_failure source_failure
verify_sources files = do
  run ← gets (λ (w : World). w.run)
  refuse_some (sources_failure files run run.sources)
