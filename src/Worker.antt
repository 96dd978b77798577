-- ===== src/Worker.antt =====
-- orchestration/durable.py, `DurableService`: the worker that executes one unit of a claimed workflow.
-- The agents of orchestration/service.py that call models and tools are parameters: what is proved holds
-- whatever they do to the run and to the database, and however they fail.
pub mod Unit
pub mod Reconcile
pub mod Attempts
pub mod Execute
pub mod Recover
pub mod Stages
pub mod Reviewed
pub mod Idle
pub mod Outcomes
pub mod Integrity
use auto_scholar.Prelude.{
  ℕ, String, Bool, true, false, not, ◌&&◌, Option, none, some, List, [], ◌∷◌, all, length, ◌==◌,
  str_eq, if◌then◌else◌,
}
use auto_scholar.Prelude.Table.{Table, get}
use auto_scholar.Prelude.Result.{Result, ok, err, Exec}
use auto_scholar.Budget.{Budget, BudgetError, budget_exceeded, attribute_error}
use auto_scholar.Plan.{PlanStep, TaskPlan}
use auto_scholar.Snapshot.{Value, text, Stage, ReviewResult}
use auto_scholar.Runs.{Run}
use auto_scholar.Durable.Rows.{Db}
use auto_scholar.Durable.Session.{
  Session, Error, lease_lost, assertion_failed, unknown_action, integrity_error, workflow_not_found,
  workbench_state_stale, idempotency_conflict, workflow_state_conflict, model_selection_required,
  task_type_removed, documents_selection_required, model_profile_unavailable, project_not_found,
  selected_documents_unavailable, checkpoint_integrity_failed, operation_uncertain,
  approval_required, workflow_cancel_requested, approval_not_found, approval_stale,
  approval_expired_or_decided, approval_already_decided, no_source, validation_error,
}

-- The exceptions that `_execute` tells apart; `raised` holds the code of any other, or the code that
-- it gets for having none.
pub data Failure : Type 0 where
  over_budget : Failure
  interrupted : Failure
  lost : Failure
  raised : String → Failure

abbrev pub no_code : Failure
no_code = raised "workflow_execution_failed"

unfoldable pub failure_of : Error → Failure
failure_of lease_lost = lost
failure_of assertion_failed = no_code
failure_of unknown_action = no_code
failure_of integrity_error = no_code
failure_of no_source = no_code
failure_of validation_error = no_code
failure_of workflow_not_found = raised "workflow_not_found"
failure_of workbench_state_stale = raised "workbench_state_stale"
failure_of idempotency_conflict = raised "idempotency_conflict"
failure_of workflow_state_conflict = raised "workflow_state_conflict"
failure_of model_selection_required = raised "model_selection_required"
failure_of task_type_removed = raised "task_type_removed"
failure_of documents_selection_required = raised "documents_selection_required"
failure_of model_profile_unavailable = raised "model_profile_unavailable"
failure_of project_not_found = raised "project_not_found"
failure_of selected_documents_unavailable = raised "selected_documents_unavailable"
failure_of checkpoint_integrity_failed = raised "checkpoint_integrity_failed"
failure_of operation_uncertain = raised "operation_uncertain"
failure_of approval_required = raised "approval_required"
failure_of workflow_cancel_requested = raised "workflow_cancel_requested"
failure_of approval_not_found = raised "approval_not_found"
failure_of approval_stale = raised "approval_stale"
failure_of approval_expired_or_decided = raised "approval_expired_or_decided"
failure_of approval_already_decided = raised "approval_already_decided"

-- What a unit works on: the run, in memory, and the database.
pub record World : Type 0 where
  pub run : Run
  pub db : Db

abbrev pub Flow : Type 0 → Type 0
Flow A = Exec Failure World A

abbrev pub rename : {A E F : Type 0} → (E → F) → Result E A → Result F A
rename f (ok a) = ok a
rename f (err e) = err (f e)

-- An operation of the repository, within a unit.
abbrev pub on_db : {A : Type 0} → Session A → Flow A
on_db m w = (rename failure_of (m w.db).0, record w { db = (m w.db).1 })

unfoldable pub budget_failure : BudgetError → Failure
budget_failure (budget_exceeded resource) = over_budget
budget_failure (attribute_error resource) = no_code

-- An operation of the run's budget.
abbrev pub on_budget : {A : Type 0} → Exec BudgetError Budget A → Flow A
on_budget m w = (
  rename budget_failure (m w.run.budget).0,
  record w { run = record w.run { budget = (m w.run.budget).1 } },
)

-- A step's child task in the file system, or the code of the `WorkspaceError`; and the digest of a source.
pub record Files : Type 0 where
  pub source_digest : Table String → String
  pub source_snapshot : String → Result String (Table String)

-- The agents of the service, and the check before the writer.
pub record Agents : Type 0 where
  pub remember : Flow (Unit {0})
  pub planner : Flow (Unit {0})
  pub step : PlanStep → Flow (Unit {0})
  pub quality : Flow (Unit {0})
  pub reviewer : Flow (Unit {0})
  pub replanner : Flow (Unit {0})
  pub rules : Flow Bool
  pub writer : Flow (Unit {0})

-- A lease: the task, the worker and the generation.
pub record Claim : Type 0 where
  pub task_id : String
  pub owner : String
  pub generation : ℕ

-- The readings of the clock in one execution.
pub record Clock : Type 0 where
  pub restored : ℕ
  pub reconciled : ℕ
  pub checked : ℕ
  pub gated : ℕ
  pub begun : ℕ
  pub worked : ℕ
  pub saved : ℕ

-- Equality of two dictionaries.
abbrev same_file : Option String → String → Bool
same_file none content = false
same_file (some other) content = str_eq other content

abbrev pub same_source : Table String → Table String → Bool
same_source a b = all (λ (name, content). same_file (get b name) content) a && length a == length b

abbrev pub value_text : Option Value → Option String
value_text (some (text s)) = some s
value_text _ = none

-- `result.get(key) == word`.
abbrev pub is_text : Option Value → String → Bool
is_text (some (text s)) word = str_eq s word
is_text _ word = false
