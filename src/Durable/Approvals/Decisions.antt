-- ===== src/Durable/Approvals/Decisions.antt =====
-- orchestration/approvals.py, `decide`: the decision of a person on an approval. It reads the snapshot before
-- its own transaction; what other transactions do between the two is an argument.
use auto_scholar.Prelude.{
  ℕ, ◌+◌, String, Bool, true, false, not, ◌&&◌, ◌||◌, ◌==◌, leb, Option, none, some, List, [], ◌∷◌,
  any, find, is_some, str_eq, if◌then◌else◌,
}
use auto_scholar.Prelude.Result.{
  Result, ok, err, pure, raise, gets, modify, refuse_if, transaction, ◌>>=◌, ◌>>◌,
}
use auto_scholar.Plan.{ExperimentSpecification, TaskPlan}
use auto_scholar.Prelude.Table.{Table}
use auto_scholar.Snapshot.{Value, text, number, Snapshot}
use auto_scholar.Durable.Rows.{
  Status, awaiting_approval, paused, ApprovalStatus, pending, approved, rejected, superseded,
  expired, Operation, WorkflowJobRow, WorkflowApprovalRow, TaskPlanRow, Db,
}
use auto_scholar.Durable.Session.{
  Session, Error, approval_not_found, approval_stale, approval_expired_or_decided,
  approval_already_decided, workflow_state_conflict, assertion_failed, integrity_error,
  ExpectedWorkflowState, event, locked, expect, set_status, checkpoint,
}
use auto_scholar.Durable.Recovery
use auto_scholar.Durable.Approvals.{is_pending, modified}

pub data DecisionAction : Type 0 where
  approve reject modify_operation : DecisionAction

pub record ApprovalDecision : Type 0 where
  pub action : DecisionAction
  pub operation_sha256 : String
  pub reason : String
  pub specification : Option ExperimentSpecification

-- The validator `modification`.
unfoldable pub check_decision : ApprovalDecision → Option ApprovalDecision
check_decision decision = elim decision.action [
  | modify_operation ↦ if is_some decision.specification then some decision else none
  | _ ↦ if is_some decision.specification then none else some decision
]

abbrev pub decided_status : DecisionAction → ApprovalStatus
decided_status approve = approved
decided_status reject = rejected
decided_status modify_operation = superseded

-- `row.status == target and action != "modify"`.
abbrev pub is_repeated : DecisionAction → ApprovalStatus → Bool
is_repeated approve approved = true
is_repeated reject rejected = true
is_repeated _ _ = false

abbrev pub is_awaiting : Status → Bool
is_awaiting awaiting_approval = true
is_awaiting _ = false

-- Why a decision comes too late, by the action and the status of the row.
unfoldable pub check_row : ℕ → DecisionAction → WorkflowApprovalRow → Option Error
check_row now approve row =
    if not (is_pending row.status) || leb row.expires_at now
    then some approval_expired_or_decided
    else none
check_row now reject row = elim row.status [
  | pending ↦ none
  | expired ↦ none
  | _ ↦ some approval_already_decided
]
check_row now modify_operation row = elim row.status [
  | pending ↦ none
  | rejected ↦ none
  | expired ↦ none
  | _ ↦ some approval_already_decided
]

abbrev pub refuse_error : Option Error → Session (Unit {0})
refuse_error none = pure tt
refuse_error (some e) = raise e

-- The unique constraint on the task and the version.
unfoldable pub add_plan : Snapshot → Option TaskPlan → Session (Unit {0})
add_plan snapshot none db = (err assertion_failed, db)
add_plan snapshot (some plan) db =
    if any
      (λ (row : TaskPlanRow).
        str_eq row.task_id snapshot.task_id && row.version == snapshot.version)
      db.plans
    then (err integrity_error, db)
    else (
      ok tt,
      record db {
        plans =
            record {
              id = db.drawn;
              task_id = snapshot.task_id;
              version = snapshot.version;
              payload = plan;
              reason = "Human changed experiment parameters";
            }
            ∷ db.plans;
        drawn = db.drawn + 1;
      },
    )

unfoldable pub save_modified :
    (Snapshot → String) → WorkflowJobRow → Result Error Snapshot → Session WorkflowJobRow
unfolding add_plan
save_modified digest job (err e) = raise e
save_modified digest job (ok snapshot) = do
  add_plan snapshot snapshot.plan
  checkpoint digest job snapshot

-- `if decision.action == "modify"`, for a decision with its specification.
unfoldable pub apply_modification :
    (Snapshot → String)
    → WorkflowJobRow
    → Snapshot
    → DecisionAction
    → Option ExperimentSpecification
    → Session WorkflowJobRow
unfolding save_modified modified
apply_modification digest job snapshot modify_operation none = raise assertion_failed
apply_modification digest job snapshot modify_operation (some specification) =
    save_modified digest job (modified snapshot specification)
apply_modification digest job snapshot approve specification = pure job
apply_modification digest job snapshot reject specification = pure job

abbrev pub decided_job : DecisionAction → Status
decided_job reject = awaiting_approval
decided_job _ = paused

abbrev pub action_text : DecisionAction → String
action_text approve = "approve"
action_text reject = "reject"
action_text modify_operation = "modify"

-- The row that was selected gets the decision.
unfoldable pub decide_approval :
    ℕ → String → ℕ → ApprovalDecision → List WorkflowApprovalRow → List WorkflowApprovalRow
decide_approval now task_id id decision [] = []
decide_approval now task_id id decision (row ∷ rows) =
    let rest = decide_approval now task_id id decision rows in
    if row.id == id && str_eq row.task_id task_id
    then record row {
      status = decided_status decision.action;
      reason = decision.reason;
      decided_at = some now;
    }
      ∷ rows
    else row ∷ rest

-- The `assert` of a modification.
abbrev pub lacks_parameters : ApprovalDecision → Snapshot → Bool
lacks_parameters decision snapshot = elim decision.action [
  | modify_operation ↦ not (is_some decision.specification) || not (is_some snapshot.plan)
  | _ ↦ false
]

-- The payload of the event.
abbrev pub decision_payload : ℕ → ApprovalDecision → Table Value
decision_payload id decision =
    ("approval_id", number id)
    ∷ ("decision", text (action_text decision.action))
    ∷ ("reason", text decision.reason)
    ∷ ("operation_sha256", text decision.operation_sha256)
    ∷ []

-- What every decision writes at the end.
unfoldable pub record_decision : ℕ → String → ApprovalDecision → ℕ → WorkflowJobRow → Session Status
unfolding decide_approval
record_decision now task_id decision id job = do
  modify
      (λ (db : Db). record db { approvals = decide_approval now task_id id decision db.approvals })
  set_status job (decided_job decision.action)
  event task_id "approval_decided" (decision_payload id decision)
  pure (decided_job decision.action)

-- A decision that is not repeated.
unfoldable pub decide_new :
    (Snapshot → String)
    → ℕ
    → String
    → ApprovalDecision
    → Snapshot
    → ℕ
    → WorkflowJobRow
    → WorkflowApprovalRow
    → Session Status
unfolding apply_modification record_decision
decide_new digest now task_id decision snapshot prior_sequence job row = do
  refuse_if (not (is_awaiting job.status) || not (job.checkpoint_sequence == prior_sequence))
      workflow_state_conflict
  refuse_if (lacks_parameters decision snapshot) assertion_failed
  refuse_error (check_row now decision.action row)
  job' ← apply_modification digest job snapshot decision.action decision.specification
  record_decision now task_id decision row.id job'

-- `decide` once the row and the job are there.
unfoldable pub decide_row :
    (Snapshot → String)
    → (Operation → String)
    → ℕ
    → String
    → ApprovalDecision
    → Snapshot
    → ℕ
    → WorkflowJobRow
    → WorkflowApprovalRow
    → Session Status
unfolding decide_new
decide_row digest operation_digest now task_id decision snapshot prior_sequence job row = do
  refuse_if
      (not (str_eq row.operation_sha256 decision.operation_sha256)
        || not (str_eq (operation_digest row.payload) decision.operation_sha256)
        || not (row.payload.plan_version == snapshot.version))
      approval_stale
  if is_repeated decision.action row.status
      then pure job.status
      else decide_new digest now task_id decision snapshot prior_sequence job row

abbrev pub expect_if : WorkflowJobRow → Option ExpectedWorkflowState → Session (Unit {0})
expect_if job none = pure tt
expect_if job (some expected) = expect job expected

abbrev pub find_row : String → ℕ → List WorkflowApprovalRow → Option WorkflowApprovalRow
find_row task_id id rows =
    find (λ (row : WorkflowApprovalRow). row.id == id && str_eq row.task_id task_id) rows

unfoldable pub decide_found :
    (Snapshot → String)
    → (Operation → String)
    → ℕ
    → String
    → ApprovalDecision
    → Snapshot
    → ℕ
    → WorkflowJobRow
    → Option WorkflowApprovalRow
    → Session Status
decide_found digest operation_digest now task_id decision snapshot prior_sequence job none =
    raise approval_not_found
decide_found digest operation_digest now task_id decision snapshot prior_sequence job (some row) =
    decide_row digest operation_digest now task_id decision snapshot prior_sequence job row

-- The transaction of `decide`, with the snapshot and the checkpoint's number that were read before it.
unfoldable pub decide_read :
    (Snapshot → String)
    → (Operation → String)
    → ℕ
    → String
    → ℕ
    → ApprovalDecision
    → Option ExpectedWorkflowState
    → Snapshot
    → ℕ
    → Session Status
unfolding decide_found decide_row
decide_read digest operation_digest now task_id approval_id decision expected snapshot
      prior_sequence =
    transaction (do
      job ← locked task_id
      expect_if job expected
      found ← gets (λ (db : Db). find_row task_id approval_id db.approvals)
      decide_found digest operation_digest now task_id decision snapshot prior_sequence job found)

unfoldable pub decide :
    (Snapshot → String)
    → (Operation → String)
    → ℕ
    → (Db → Db)
    → String
    → ℕ
    → ApprovalDecision
    → Option ExpectedWorkflowState
    → Session Status
unfolding decide_read
decide digest operation_digest now between task_id approval_id decision expected = do
  read ← Recovery.snapshot digest task_id
  modify between
  decide_read digest operation_digest now task_id approval_id decision expected read.0
      read.1.checkpoint_sequence
