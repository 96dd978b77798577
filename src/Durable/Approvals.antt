-- ===== src/Durable/Approvals.antt =====
-- orchestration/approvals.py: the approval of an expensive experiment by a person. The digests of a source
-- and of an operation are parameters.
pub mod Affected
pub mod Decisions
pub mod Closed
pub mod Users
pub mod Later
use auto_scholar.Prelude.{
  ℕ, zero, suc, ◌+◌, ◌*◌, String, Bool, true, false, not, ◌&&◌, ◌||◌, ◌==◌, leb, Option, none, some,
  List, [], ◌∷◌, ◌++◌, map, any, keep_if, find, length, is_some, str_eq, if◌then◌else◌,
}
use auto_scholar.Prelude.Table.{Table, get, put, remove}
use auto_scholar.Prelude.Sets.{contains, is_subset}
use auto_scholar.Prelude.Result.{
  Result, ok, err, pure, raise, gets, modify, refuse_if, transaction, ◌>>=◌, ◌>>◌,
}
use auto_scholar.Plan.{
  ExperimentSpecification, PlanStep, TaskPlan, is_coding, is_experiment, validate_graph, cost_units,
}
use auto_scholar.Snapshot.{text, number, Snapshot, executor}
use auto_scholar.Durable.Rows.{
  Status, awaiting_approval, paused, ApprovalStatus, pending, approved, rejected, superseded,
  expired, Operation, WorkflowJobRow, WorkflowApprovalRow, TaskPlanRow, Db,
}
use auto_scholar.Durable.Session.{
  Session, Error, approval_not_found, approval_stale, approval_expired_or_decided,
  approval_already_decided, workflow_state_conflict, assertion_failed, integrity_error, no_source,
  validation_error, ExpectedWorkflowState, event, locked, fence, expect, set_status, checkpoint,
  second,
}
use auto_scholar.Durable.Work.{find_approval, is_approved, mark_approval}

-- `source_key` and the payload of `operation`; the run's fields are those of its snapshot.
unfoldable pub operation : (Table String → String) → Snapshot → PlanStep → Option Operation
operation source_digest run step =
    elim (find (λ key. is_some (get run.sources key)) step.dependencies) [
      | none ↦ none
      | some key ↦ elim (get run.sources key) [
        | none ↦ none
        | some source ↦ some (record {
          task_id = run.task_id;
          plan_version = run.version;
          step_id = step.id;
          specification = run.specification;
          source_sha256 = source_digest source;
          budget_limits = run.limits;
          cost_units = cost_units run.specification;
        })
      ]
    ]

abbrev pub is_open : ApprovalStatus → Bool
is_open pending = true
is_open approved = true
is_open _ = false

abbrev pub is_pending : ApprovalStatus → Bool
is_pending pending = true
is_pending _ = false

abbrev pub has_expired : ℕ → WorkflowApprovalRow → Bool
has_expired now row = is_open row.status && leb row.expires_at now

abbrev pub day : ℕ
day = 24 * 3600 * second

abbrev pub requested : ℕ → ℕ → Operation → String → WorkflowApprovalRow
requested id now payload hash = record {
  id = id;
  task_id = payload.task_id;
  operation_sha256 = hash;
  payload = payload;
  status = pending;
  reason = "Experiment exceeds approval threshold";
  expires_at = now + day;
  decided_at = none;
}

-- The new row, and its event.
unfoldable pub add_request : Operation → String → WorkflowApprovalRow → Session WorkflowApprovalRow
add_request payload hash row = do
  modify (λ db. record db { approvals = db.approvals ++ row ∷ []; drawn = db.drawn + 1 })
  event payload.task_id "approval_requested"
      (("approval_id", number row.id) ∷ ("operation_sha256", text hash) ∷ [])
  pure row

unfoldable pub request :
    ℕ → Operation → String → Option WorkflowApprovalRow → Session WorkflowApprovalRow
unfolding add_request
request now payload hash (some row) = pure row
request now payload hash none = do
  row ← gets (λ db. requested db.drawn now payload hash)
  add_request payload hash row

-- The two tests after the row is there; the second one marks it as expired.
unfoldable pub permit : ℕ → WorkflowApprovalRow → Session Bool
permit now row = do
  modify (λ db.
      if has_expired now row
      then record db { approvals = mark_approval row.id expired db.approvals }
      else db)
  pure (is_approved row.status && not (leb row.expires_at now))

unfoldable pub ask : ℕ → Operation → String → Option WorkflowApprovalRow → Session Bool
unfolding request permit
ask now payload hash found = do row ← request now payload hash found; permit now row

-- `gate` on the job that it holds.
abbrev pub gate_held : (Operation → String) → ℕ → Operation → Session Bool
gate_held operation_digest now payload = do
  found ← gets (λ db. find_approval payload.task_id (operation_digest payload) db.approvals)
  ask now payload (operation_digest payload) found

unfoldable pub gate_operation : (Operation → String) → ℕ → Operation → String → ℕ → Session Bool
unfolding ask
gate_operation operation_digest now payload owner generation = transaction (do
  job ← locked payload.task_id
  fence job owner generation now
  gate_held operation_digest now payload)

abbrev pub gate_if : (Operation → String) → ℕ → String → ℕ → Option Operation → Session Bool
gate_if operation_digest now owner generation none = raise no_source
gate_if operation_digest now owner generation (some payload) =
    gate_operation operation_digest now payload owner generation

-- No dependency with a source is the `StopIteration` of `operation`.
unfoldable pub gate :
    (Table String → String)
    → (Operation → String)
    → ℕ
    → Snapshot
    → PlanStep
    → String
    → ℕ
    → Session Bool
unfolding operation gate_operation
gate source_digest operation_digest now run step owner generation =
    gate_if operation_digest now owner generation (operation source_digest run step)

pub record ApprovalEntry : Type 0 where
  pub id : ℕ
  pub operation_sha256 : String
  pub status : ApprovalStatus
  pub operation : Operation
  pub reason : String
  pub expires_at : ℕ

abbrev entry : ℕ → WorkflowApprovalRow → ApprovalEntry
entry now row = record {
  id = row.id;
  operation_sha256 = row.operation_sha256;
  status = if has_expired now row then expired else row.status;
  operation = row.payload;
  reason = row.reason;
  expires_at = row.expires_at;
}

-- `list`, in the order in which the approvals were requested.
unfoldable pub list_approvals : ℕ → String → Session (List ApprovalEntry)
list_approvals now task_id = do
  locked task_id
  gets (λ db. map (entry now) (keep_if (λ row. str_eq row.task_id task_id) db.approvals))

-- The steps with a dependency in a set.
abbrev pub dependents : List PlanStep → List String → List String
dependents steps affected =
    map (λ (step : PlanStep). step.id)
      (keep_if (λ step. any (λ d. contains affected d) step.dependencies) steps)

-- The loop of `modified`; a turn that goes on adds a step, so one turn for each step is enough.
unfoldable pub close_affected : ℕ → List PlanStep → List String → List String
close_affected zero steps affected = affected
close_affected (suc fuel) steps affected =
    let rest = close_affected fuel steps (dependents steps affected ++ affected) in
    if is_subset (dependents steps affected) affected then affected else rest

abbrev pub affected_steps : List PlanStep → List String
affected_steps steps = close_affected (suc (length steps)) steps (
    map (λ (step : PlanStep). step.id)
      (keep_if (λ step. is_coding step.kind || is_experiment step.kind) steps))

abbrev move_source : String → Option (Table String) → Snapshot → Snapshot
move_source key none s = s
move_source key (some source) s = record s { previous_sources = put s.previous_sources key source }

-- The loop over the affected steps.
unfoldable pub drop_results : List String → Snapshot → Snapshot
drop_results [] s = s
drop_results (key ∷ keys) s = drop_results keys (
    move_source key (get s.sources key)
      (record s { results = remove s.results key; sources = remove s.sources key }))

abbrev without_specification : PlanStep → PlanStep
without_specification step =
    if is_experiment step.kind then record step { specification = none } else step

abbrev rewritten : ExperimentSpecification → Snapshot → TaskPlan → Snapshot
rewritten specification s plan = record s {
  plan = some plan;
  specification = specification;
  version = s.version + 1;
  stage = executor;
  review = none;
  answer = none;
}

unfoldable pub modified : Snapshot → ExperimentSpecification → Result Error Snapshot
unfolding drop_results close_affected
modified snapshot specification = elim snapshot.plan [
  | none ↦ err assertion_failed
  | some plan ↦
      elim (validate_graph (record plan { steps = map without_specification plan.steps })) [
        | err _ ↦ err validation_error
        | ok changed ↦
            ok (rewritten specification (drop_results (affected_steps plan.steps) snapshot) changed)
      ]
]
