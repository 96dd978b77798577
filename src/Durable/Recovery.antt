-- ===== src/Durable/Recovery.antt =====
-- orchestration/durable_repository.py: `snapshot`, `reconcile_calls`, `queue_reconciled` and `history`.
use Prim.Native.String.{◌++◌ as ◌++ₛ◌}
use auto_scholar.Prelude.{
  ℕ, String, Bool, false, not, ◌&&◌, ◌||◌, Option, none, some, List, [], ◌∷◌, is_empty, is_some,
  find, keep_if, map, take, str_eq, ◌==◌, if◌then◌else◌,
}
use auto_scholar.Prelude.Table.{Table, get}
use auto_scholar.Prelude.Result.{pure, raise, gets, refuse_if, transaction, ◌>>=◌, ◌>>◌}
use auto_scholar.Snapshot.{Value, text, number, Snapshot, Stage}
use auto_scholar.Runs.{model_validate}
use auto_scholar.Durable.Rows.{
  Status, queued, WorkflowJobRow, WorkflowCheckpointRow, WorkflowEventRow, CoreToolCallRow,
  ToolOperationRow,
}
use auto_scholar.Durable.Session.{
  Session, checkpoint_integrity_failed, validation_error, workflow_state_conflict, event, locked,
  write_job, fence, set_status,
}
use auto_scholar.Durable.Save.{is_recovery}
use auto_scholar.Durable.Receipts.{Validators, is_completed_receipt, receipt_status}

abbrev pub is_checkpoint_of : String → ℕ → WorkflowCheckpointRow → Bool
is_checkpoint_of task_id sequence row = str_eq row.task_id task_id && row.sequence == sequence

-- `checkpoint is None or checkpoint.sha256 != digest(...)`, the validation of the payload, and the task
-- of the snapshot.
unfoldable pub read_checkpoint :
    (Snapshot → String) → String → Option WorkflowCheckpointRow → Session Snapshot
read_checkpoint digest task_id none = raise checkpoint_integrity_failed
read_checkpoint digest task_id (some row) =
    if str_eq row.sha256 (digest row.payload)
    then elim (model_validate row.payload) [
      | none ↦ raise validation_error
      | some saved ↦
          if str_eq saved.task_id task_id then pure saved else raise checkpoint_integrity_failed
    ]
    else raise checkpoint_integrity_failed

unfoldable pub snapshot : (Snapshot → String) → String → Session (Snapshot × WorkflowJobRow)
unfolding read_checkpoint
snapshot digest task_id = do
  row ← locked task_id
  found ← gets (λ db. find (is_checkpoint_of task_id row.checkpoint_sequence) db.checkpoints)
  saved ← read_checkpoint digest task_id found
  pure (saved, row)

abbrev pub is_parent : Option String → String → Bool
is_parent none task_id = false
is_parent (some parent) task_id = str_eq parent task_id

-- `call is None or call.parent_task_id != task_id or kind != "mcp:" + call.tool`, the other way round,
-- and the receipt of the call.
abbrev pub settles :
    Validators → Table ToolOperationRow → String → String → Option CoreToolCallRow → Bool
settles v operations task_id kind none = false
settles v operations task_id kind (some call) =
    is_parent call.parent_task_id task_id
    && str_eq kind ("mcp:" ++ₛ call.tool)
    && is_completed_receipt (receipt_status v operations call)

abbrev pub call_payload : String → Option CoreToolCallRow → Table Value
call_payload operation_id none = []
call_payload operation_id (some call) =
    ("call_id", text operation_id) ∷ ("service", text call.service) ∷ ("tool", text call.tool) ∷ []

-- The loop over the pending calls: those that are left.
unfoldable pub settle_calls : Validators → String → Table String → Session (Table String)
settle_calls v task_id [] = pure []
settle_calls v task_id ((operation_id, kind) ∷ pending) =
    let rest = settle_calls v task_id pending in
    do
      call ← gets (λ db. get db.calls operation_id)
      done ← gets (λ db. settles v db.operations task_id kind call)
      if done
          then (do event task_id "call_reconciled" (call_payload operation_id call); rest)
          else (do left ← rest; pure ((operation_id, kind) ∷ left))

-- A worker is fenced; a client states the checkpoint of a job that nobody holds.
unfoldable pub authorize_recovery :
    WorkflowJobRow → ℕ → Option (String × ℕ) → Option ℕ → Session (Unit {0})
authorize_recovery job now (some (owner, generation)) sequence = fence job owner generation now
authorize_recovery job now none sequence =
    refuse_if
      (not (is_recovery job.status)
        || is_some job.owner
        || not (elim sequence [ none ↦ false | some n ↦ job.checkpoint_sequence == n ]))
      workflow_state_conflict

-- `reconcile_calls` on the job that it holds.
abbrev pub reconcile_held :
    Validators
    → ℕ
    → String
    → Option (String × ℕ)
    → Option ℕ
    → WorkflowJobRow
    → Session (Table String)
reconcile_held v now task_id worker sequence job = do
  authorize_recovery job now worker sequence
  left ← settle_calls v task_id job.pending_calls
  write_job (record job { pending_calls = left })
  pure left

unfoldable pub reconcile_calls :
    Validators → ℕ → String → Option (String × ℕ) → Option ℕ → Session (Table String)
unfolding authorize_recovery
reconcile_calls v now task_id worker sequence =
    transaction (do job ← locked task_id; reconcile_held v now task_id worker sequence job)

-- The test of `queue_reconciled`, the other way round.
abbrev pub is_reconciled : WorkflowJobRow → ℕ → Bool
is_reconciled job sequence =
    is_recovery job.status
    && not (is_some job.owner)
    && job.checkpoint_sequence == sequence
    && is_empty job.pending_calls

-- `queue_reconciled` once the state of the job is seen to be right.
abbrev pub queue_job : String → ℕ → WorkflowJobRow → Session Status
queue_job task_id sequence job = do
  set_status (record job { error_code = none }) queued
  event task_id "recovery_verified" (("checkpoint_sequence", number sequence) ∷ [])
  pure queued

-- `queue_reconciled` on the job that it holds.
abbrev pub queue_held : String → ℕ → WorkflowJobRow → Session Status
queue_held task_id sequence job = do
  refuse_if (not (is_reconciled job sequence)) workflow_state_conflict
  queue_job task_id sequence job

unfoldable pub queue_reconciled : String → ℕ → Session Status
queue_reconciled task_id sequence =
    transaction (do job ← locked task_id; queue_held task_id sequence job)

-- `history`: the newest first.
pub record CheckpointEntry : Type 0 where
  pub sequence : ℕ
  pub sha256 : String
  pub stage : Stage
  pub plan_version : ℕ

abbrev checkpoint_entry : WorkflowCheckpointRow → CheckpointEntry
checkpoint_entry row = record {
  sequence = row.sequence;
  sha256 = row.sha256;
  stage = row.payload.stage;
  plan_version = row.payload.version;
}

unfoldable pub checkpoint_history : String → ℕ → Session (List CheckpointEntry)
checkpoint_history task_id limit = do
  locked task_id
  gets (λ db.
      map checkpoint_entry
        (take limit (keep_if (λ row. str_eq row.task_id task_id) db.checkpoints)))

unfoldable pub event_history : String → ℕ → Session (List WorkflowEventRow)
event_history task_id limit = do
  locked task_id
  gets (λ db. take limit (keep_if (λ row. str_eq row.task_id task_id) db.events))
