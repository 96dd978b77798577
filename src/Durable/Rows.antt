-- ===== src/Durable/Rows.antt =====
-- orchestration/durable_models.py and the rows of agent/database_models.py that it goes with: the
-- tables as far as the workflow queue reads and writes them.
use auto_scholar.Prelude.{ℕ, String, Bool, true, false, Option, List}
use auto_scholar.Prelude.Table.{Table}
use auto_scholar.Budget.{BudgetLimits}
use auto_scholar.Plan.{ExperimentSpecification, TaskPlan}
use auto_scholar.Snapshot.{Value, Snapshot}

-- The words that stand in the `status` of a task and of its job.
pub data Status : Type 0 where
  queued running paused pause_requested cancel_requested awaiting_approval recovery_required :
      Status
  succeeded failed budget_exceeded cancelled : Status

-- `TERMINAL`.
abbrev pub is_terminal : Status → Bool
is_terminal succeeded = true
is_terminal failed = true
is_terminal budget_exceeded = true
is_terminal cancelled = true
is_terminal _ = false

-- A worker holds the job.
abbrev pub is_leased : Status → Bool
is_leased running = true
is_leased pause_requested = true
is_leased cancel_requested = true
is_leased _ = false

pub record WorkflowJobRow : Type 0 where
  pub task_id : String
  pub idempotency_key : String
  pub request_sha256 : String
  pub status : Status
  pub checkpoint_sequence : ℕ
  pub owner : Option String
  pub generation : ℕ
  pub lease_until : Option ℕ
  pub active : Table Value
  pub pending_calls : Table String
  pub usage : Table ℕ
  pub active_seconds : ℕ
  pub error_code : Option String
  pub created_at : ℕ

pub record AgentTaskRow : Type 0 where
  pub id : String
  pub objective : String
  pub project_id : Option String
  pub parent_task_id : Option String
  pub status : Status
  pub mode : String
  pub plan : List String
  pub metrics : Table ℕ
  pub research_sources : List String
  pub event_sequence : ℕ
  pub answer : Option String
  pub error_code : Option String
  pub error_message : Option String

-- The identifiers of these rows are values of `uuid4`: the n-th value drawn is written n.
pub record WorkflowCheckpointRow : Type 0 where
  pub id : ℕ
  pub task_id : String
  pub sequence : ℕ
  pub payload : Snapshot
  pub sha256 : String

pub record WorkflowEventRow : Type 0 where
  pub id : ℕ
  pub task_id : String
  pub kind : String
  pub sequence : ℕ
  pub payload : Table Value

pub data ApprovalStatus : Type 0 where
  pending approved rejected superseded expired consumed : ApprovalStatus

pub record TaskPlanRow : Type 0 where
  pub id : ℕ
  pub task_id : String
  pub version : ℕ
  pub payload : TaskPlan
  pub reason : String

-- What an approval is bound to; `operation` of orchestration/approvals.py builds it.
pub record Operation : Type 0 where
  pub task_id : String
  pub plan_version : ℕ
  pub step_id : String
  pub specification : ExperimentSpecification
  pub source_sha256 : String
  pub budget_limits : BudgetLimits
  pub cost_units : ℕ

pub record WorkflowApprovalRow : Type 0 where
  pub id : ℕ
  pub task_id : String
  pub operation_sha256 : String
  pub payload : Operation
  pub status : ApprovalStatus
  pub reason : String
  pub expires_at : ℕ
  pub decided_at : Option ℕ

-- tool_platform/operation_models.py. A result is the dictionary that an operation returns.
pub record ToolResult : Type 0 where
  pub succeeded : Bool
  pub output : String
  pub error_code : Option String
  pub uncertain : Bool

pub record ToolOperationRow : Type 0 where
  pub id : String
  pub task_id : String
  pub service : String
  pub tool : String
  pub arguments_sha256 : String
  pub authority_sha256 : String
  pub is_completed : Bool
  pub result : Option ToolResult

pub record CoreToolCallRow : Type 0 where
  pub id : String
  pub task_id : String
  pub parent_task_id : Option String
  pub service : String
  pub tool : String
  pub arguments_sha256 : String
  pub authority_sha256 : String
  pub output_schema : String
  pub is_completed : Bool
  pub result : Option ToolResult
  pub result_sha256 : Option String

pub record ModelProfileRow : Type 0 where
  pub enabled : Bool
  pub name : String
  pub model : String

pub record DocumentRow : Type 0 where
  pub id : String
  pub project_id : String
  pub is_ready : Bool

-- A committed state. Rows that have no natural key are listed, the newest first; `drawn` counts the
-- values of `uuid4` used so far. A project is its flag `deleted_at is not None`.
pub record Db : Type 0 where
  pub tasks : Table AgentTaskRow
  pub jobs : Table WorkflowJobRow
  pub checkpoints : List WorkflowCheckpointRow
  pub events : List WorkflowEventRow
  pub approvals : List WorkflowApprovalRow
  pub plans : List TaskPlanRow
  pub profiles : Table ModelProfileRow
  pub projects : Table Bool
  pub documents : List DocumentRow
  pub calls : Table CoreToolCallRow
  pub operations : Table ToolOperationRow
  pub drawn : ℕ
