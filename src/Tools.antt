-- ===== src/Tools.antt =====
-- tool_platform/operations.py: tool operations that run at most once. The digest of a caller's authority
-- is a parameter. A context is the JSON object that the core sends, with the types of its fields checked.
-- One transaction runs at a time here, so the second look at a row that `IntegrityError` leads to does not
-- arise.
pub mod Execution
pub mod Once
pub mod Registry
use auto_scholar.Prelude.{
  ℕ, String, Bool, true, false, not, ◌&&◌, ◌||◌, Option, none, some, List, [], ◌∷◌, is_some, str_eq,
  leb, if◌then◌else◌,
}
use auto_scholar.Prelude.Table.{get, put}
use auto_scholar.Prelude.Result.{
  Result, ok, err, Exec, pure, raise, gets, refuse_if, transaction, ◌>>=◌, ◌>>◌,
}
use auto_scholar.Durable.Rows.{
  Status, pause_requested, running, is_terminal, WorkflowJobRow, AgentTaskRow, ToolResult,
  ToolOperationRow, Db,
}
use auto_scholar.Durable.Session.{holds_lease}

pub record Scope : Type 0 where
  pub task_id : String
  pub project_id : Option String

pub record WorkflowClaim : Type 0 where
  pub task_id : String
  pub owner : String
  pub generation : ℕ

pub record Context : Type 0 where
  pub scope : Option Scope
  pub claim : Option WorkflowClaim
  pub parent_task_id : Option String
  pub deadline : ℕ
  pub operation_id : String
  pub tool : String
  pub arguments_sha256 : String

-- `OperationDenied`, and the other exceptions.
pub data ToolError : Type 0 where
  denied : String → ToolError
  failed : String → ToolError

abbrev pub failure : String → Bool → ToolResult
failure code uncertain = record {
  succeeded = false;
  output = code;
  error_code = some code;
  uncertain = uncertain;
}

abbrev pub same_text : Option String → Option String → Bool
same_text none none = true
same_text (some a) (some b) = str_eq a b
same_text _ _ = false

abbrev is_active : Status → Bool
is_active running = true
is_active pause_requested = true
is_active _ = false

abbrev is_running_task : Status → Bool
is_running_task running = true
is_running_task _ = false

-- The checks of a claim on a job, in their order; `none` when they pass.
unfoldable pub check_claim : ℕ → Bool → WorkflowJobRow → Option WorkflowClaim → Option String
check_claim now read_only job none = some "workflow_claim_required"
check_claim now read_only job (some claim) =
    if not (str_eq claim.task_id job.task_id)
    then some "workflow_claim_required"
    else if not (holds_lease job claim.owner claim.generation now)
    then some "workflow_claim_stale"
    else if not read_only && not (is_active job.status)
    then some "workflow_not_running"
    else none

abbrev pub is_terminal_read : Bool → WorkflowJobRow → Option WorkflowClaim → Bool
is_terminal_read read_only job claim =
    read_only && not (is_some job.owner) && is_terminal job.status && not (is_some claim)

unfoldable pub check_job : ℕ → Bool → Context → AgentTaskRow → Option WorkflowJobRow → Option String
unfolding check_claim
check_job now read_only context task none =
    if is_some task.parent_task_id || is_some context.claim || str_eq task.mode "autonomous"
    then some "workflow_claim_invalid"
    else none
check_job now read_only context task (some job) =
    if is_terminal_read read_only job context.claim
    then none
    else check_claim now read_only job context.claim

unfoldable pub check_task : ℕ → Bool → Scope → ℕ → AgentTaskRow → Option String
check_task now read_only scope deadline task =
    if not read_only && not (is_running_task task.status)
    then some "task_not_running"
    else if is_some scope.project_id && not (same_text scope.project_id task.project_id)
    then some "task_project_mismatch"
    else if leb deadline now
    then some "operation_expired"
    else none

-- `parent_id or task.id`.
abbrev pub workflow_of : AgentTaskRow → String
workflow_of task = elim task.parent_task_id [
  | none ↦ task.id
  | some parent ↦ if str_eq parent "" then task.id else parent
]

abbrev first_of : Option String → Option String → Option String
first_of none b = b
first_of (some a) b = some a

-- Why `authorize` denies an operation, if it does.
unfoldable pub denial_of : ℕ → Bool → Context → Db → Scope → Option AgentTaskRow → Option String
unfolding check_job check_task
denial_of now read_only context db scope none = some "task_access_denied"
denial_of now read_only context db scope (some task) =
    if not (same_text context.parent_task_id task.parent_task_id)
    then some "task_parent_mismatch"
    else first_of (check_job now read_only context task (get db.jobs (workflow_of task)))
        (check_task now read_only scope context.deadline task)

unfoldable pub denial : ℕ → Bool → Context → Db → Option String
unfolding denial_of
denial now read_only context db = elim context.scope [
  | none ↦ some "task_scope_required"
  | some scope ↦ denial_of now read_only context db scope (get db.tasks scope.task_id)
]

abbrev pub deny : Option String → Exec ToolError Db (Unit {0})
deny none db = (ok tt, db)
deny (some code) db = (err (denied code), db)

unfoldable pub authorize : ℕ → Bool → Context → Exec ToolError Db (Unit {0})
authorize now read_only context db = deny (denial now read_only context db) db

-- `context["scope"]["task_id"]`, of a context that was authorized.
abbrev pub task_in : Context → String
task_in context = elim context.scope [ none ↦ "" | some scope ↦ scope.task_id ]

abbrev pub is_same_operation : (Context → String) → String → ToolOperationRow → Context → Bool
is_same_operation authority service row context =
    str_eq row.service service
    && str_eq row.task_id (task_in context)
    && str_eq row.tool context.tool
    && str_eq row.arguments_sha256 context.arguments_sha256
    && str_eq row.authority_sha256 (authority context)

abbrev completed_result : Bool → Option ToolResult → ToolResult
completed_result true (some result) = result
completed_result _ _ = failure "operation_uncertain" true

unfoldable pub receipt : (Context → String) → String → ToolOperationRow → Context → ToolResult
receipt authority service row context =
    if is_same_operation authority service row context
    then completed_result row.is_completed row.result
    else failure "operation_identity_conflict" false

abbrev pub new_operation : (Context → String) → String → Context → ToolOperationRow
new_operation authority service context = record {
  id = context.operation_id;
  task_id = task_in context;
  service = service;
  tool = context.tool;
  arguments_sha256 = context.arguments_sha256;
  authority_sha256 = authority context;
  is_completed = false;
  result = none;
}

-- The receipt of an operation that is known, or a new reservation.
unfoldable pub reserve_or_receipt :
    (Context → String)
    → String
    → Context
    → Option ToolOperationRow
    → Exec ToolError Db (Option ToolResult)
reserve_or_receipt authority service context (some row) db =
    (ok (some (receipt authority service row context)), db)
reserve_or_receipt authority service context none db = (
  ok none,
  record db {
    operations = put db.operations context.operation_id (new_operation authority service context);
  },
)

-- The first transaction of `execute`, which is also `reserve`, before it catches `OperationDenied`.
unfoldable pub reservation :
    (Context → String) → String → ℕ → Context → Exec ToolError Db (Option ToolResult)
unfolding reserve_or_receipt
reservation authority service now context = transaction (do
  authorize now false context
  existing ← gets (λ (db : Db). get db.operations context.operation_id)
  reserve_or_receipt authority service context existing)

-- `except OperationDenied`.
abbrev pub caught : {A : Type 0} → (ToolResult → A) → Result ToolError A → Result ToolError A
caught of_result (ok a) = ok a
caught of_result (err (denied code)) = ok (of_result (failure code false))
caught of_result (err e) = err e

unfoldable pub reserve :
    (Context → String) → String → ℕ → Context → Exec ToolError Db (Option ToolResult)
reserve authority service now context db =
    let out = reservation authority service now context db in (caught some out.0, out.1)
