-- ===== src/Durable/Save.antt =====
-- orchestration/durable_repository.py: `save`, the end of a unit of work.
use auto_scholar.Prelude.{
  ℕ, ◌+◌, String, Bool, true, false, not, ◌&&◌, Option, none, some, List, [], ◌∷◌, map, is_empty,
  str_eq, get_or, if◌then◌else◌,
}
use auto_scholar.Prelude.Table.{Table, get, put}
use auto_scholar.Prelude.Result.{ok, err, transaction, ◌>>=◌, ◌>>◌}
use auto_scholar.Plan.{PlanStep, TaskPlan}
use auto_scholar.Snapshot.{
  text, number, Snapshot, Stage, planner, executor, quality, reviewer, replanner, writer, done,
}
use auto_scholar.Durable.Rows.{
  Status, paused, pause_requested, recovery_required, succeeded, failed, budget_exceeded, cancelled,
  WorkflowJobRow, AgentTaskRow,
}
use auto_scholar.Durable.Session.{
  Session, assertion_failed, event, locked, fence, set_status, checkpoint,
}
use auto_scholar.Durable.Work.{merge_spent, is_cancel_requested}
use auto_scholar.Durable.Lease.{status_text, is_queued}

abbrev pub may_stay_pending : Status → Bool
may_stay_pending cancelled = true
may_stay_pending budget_exceeded = true
may_stay_pending _ = false

abbrev pub is_pause_requested : Status → Bool
is_pause_requested pause_requested = true
is_pause_requested _ = false

abbrev pub is_recovery : Status → Bool
is_recovery recovery_required = true
is_recovery _ = false

-- What the job's own state makes of the status and the error code that the worker gives.
unfoldable pub saved_status : WorkflowJobRow → Status → Option String → Status × Option String
saved_status row status error_code =
    if is_cancel_requested row.status
    then (cancelled, error_code)
    else if not (is_empty row.pending_calls) && not (may_stay_pending status)
    then (recovery_required, some "external_result_uncertain")
    else if is_pause_requested row.status && is_queued status
    then (paused, error_code)
    else (status, error_code)

-- `if status != "recovery_required": row.active = {}`, and the end of the lease.
abbrev pub released : Status → WorkflowJobRow → WorkflowJobRow
released status row = record row {
  active = if is_recovery status then row.active else [];
  owner = none;
  lease_until = none;
}

abbrev pub plan_of : Option TaskPlan → List String
plan_of none = []
plan_of (some plan) = map (λ (step : PlanStep). step.description) plan.steps

-- `task.answer`: a final answer, or what an unaccepted draft left.
unfoldable pub saved_answer : Snapshot → Status → Option String
saved_answer snapshot succeeded = snapshot.answer
saved_answer snapshot failed =
    if not (is_empty snapshot.quality.sections) && not snapshot.quality.accepted
    then snapshot.answer
    else none
saved_answer snapshot budget_exceeded =
    if not (is_empty snapshot.quality.sections) && not snapshot.quality.accepted
    then snapshot.answer
    else none
saved_answer snapshot _ = none

abbrev is_child : String → AgentTaskRow → Bool
is_child task_id task = elim task.parent_task_id [
  | none ↦ false
  | some parent ↦ str_eq parent task_id
]

-- `sum(child.metrics.get(key, 0) for child in children)`.
unfoldable pub sum_metric : String → String → Table AgentTaskRow → ℕ
sum_metric task_id key [] = 0
sum_metric task_id key ((_, task) ∷ tasks) =
    (if is_child task_id task then get_or (get task.metrics key) 0 else 0)
    + sum_metric task_id key tasks

abbrev pub child_keys : List String
child_keys =
    "artifact_count" ∷ "artifact_bytes" ∷ "files_written" ∷ "experiment_duration_ms"
    ∷ "experiments_started" ∷ "experiments_succeeded" ∷ []

unfoldable pub add_sums : String → Table AgentTaskRow → List String → Table ℕ → Table ℕ
add_sums task_id tasks [] metrics = metrics
add_sums task_id tasks (key ∷ keys) metrics =
    add_sums task_id tasks keys (put metrics key (sum_metric task_id key tasks))

-- The task's plan, answer and summed metrics.
abbrev pub saved_task :
    String → Snapshot → Status → Table AgentTaskRow → AgentTaskRow → AgentTaskRow
saved_task task_id snapshot status tasks task = record task {
  plan = plan_of snapshot.plan;
  answer = saved_answer snapshot status;
  metrics = add_sums task_id tasks child_keys task.metrics;
}

unfoldable pub write_task : String → Snapshot → Status → Session (Unit {0})
unfolding saved_answer add_sums sum_metric
write_task task_id snapshot status db = elim (get db.tasks task_id) [
  | none ↦ (err assertion_failed, db)
  | some task ↦ (
    ok tt,
    record db { tasks = put db.tasks task_id (saved_task task_id snapshot status db.tasks task) },
  )
]

abbrev pub stage_text : Stage → String
stage_text planner = "planner"
stage_text executor = "executor"
stage_text quality = "quality"
stage_text reviewer = "reviewer"
stage_text replanner = "replanner"
stage_text writer = "writer"
stage_text done = "done"

-- `save` on the job that it holds.
abbrev pub save_held :
    (Snapshot → String)
    → String
    → Snapshot
    → Table ℕ
    → ℕ
    → Status × Option String
    → WorkflowJobRow
    → Session (Unit {0})
save_held digest task_id snapshot usage elapsed decided row = do
  row' ←
      checkpoint digest (record (merge_spent usage elapsed row) { error_code = decided.1 }) snapshot
  set_status (released decided.0 row') decided.0
  write_task task_id snapshot decided.0
  event task_id "checkpoint_saved" (
      ("sequence", number row'.checkpoint_sequence)
      ∷ ("stage", text (stage_text snapshot.stage))
      ∷ ("status", text (status_text decided.0))
      ∷ [])

unfoldable pub save :
    (Snapshot → String)
    → ℕ
    → String
    → String
    → ℕ
    → Snapshot
    → Table ℕ
    → ℕ
    → Status
    → Option String
    → Session (Unit {0})
unfolding saved_status
save digest now task_id owner generation snapshot usage elapsed status error_code = transaction (do
  row ← locked task_id
  fence row owner generation now
  save_held digest task_id snapshot usage elapsed (saved_status row status error_code) row)
