-- ===== src/Durable/Control.antt =====
-- orchestration/durable_repository.py: `control`, the pause, resume and cancellation of a workflow.
use auto_scholar.Prelude.{
  String, Bool, true, false, not, Option, none, some, [], ◌∷◌, if◌then◌else◌,
}
use auto_scholar.Prelude.Result.{Result, ok, err, pure, raise, refuse_if, transaction, ◌>>=◌, ◌>>◌}
use auto_scholar.Snapshot.{text}
use auto_scholar.Durable.Rows.{
  Status, queued, running, paused, pause_requested, cancel_requested, awaiting_approval,
  recovery_required, cancelled, is_terminal, WorkflowJobRow,
}
use auto_scholar.Durable.Session.{
  Session, Error, workflow_state_conflict, unknown_action, ExpectedWorkflowState, event, locked,
  expect, set_status,
}
use auto_scholar.Durable.Lease.{status_text}

pub data Action : Type 0 where
  pause resume cancel : Action
  unknown : String → Action

abbrev pub action_text : Action → String
action_text pause = "pause"
action_text resume = "resume"
action_text cancel = "cancel"
action_text (unknown word) = word

-- The table `allowed`, for a client that states what it expects.
abbrev pub is_allowed : Action → Status → Bool
is_allowed pause queued = true
is_allowed pause running = true
is_allowed resume paused = true
is_allowed cancel queued = true
is_allowed cancel running = true
is_allowed cancel paused = true
is_allowed cancel pause_requested = true
is_allowed cancel awaiting_approval = true
is_allowed cancel recovery_required = true
is_allowed _ _ = false

unfoldable pub check_expected :
    WorkflowJobRow → Action → Option ExpectedWorkflowState → Session (Unit {0})
check_expected row action none = pure tt
check_expected row action (some expected) = do
  expect row expected
  refuse_if (not (is_allowed action row.status)) workflow_state_conflict

-- The status that an action leads to; `none` for the early return of a cancellation.
unfoldable pub target : Action → Status → Result Error (Option Status)
target pause queued = ok (some paused)
target pause paused = ok (some paused)
target pause running = ok (some pause_requested)
target pause pause_requested = ok (some pause_requested)
target pause _ = err workflow_state_conflict
target resume paused = ok (some queued)
target resume queued = ok (some queued)
target resume running = ok (some running)
target resume _ = err workflow_state_conflict
target cancel running = ok (some cancel_requested)
target cancel pause_requested = ok (some cancel_requested)
target cancel cancel_requested = ok (some cancel_requested)
target cancel status = if is_terminal status then ok none else ok (some cancelled)
target (unknown word) status = err unknown_action

unfoldable pub apply_target :
    WorkflowJobRow → Action → Result Error (Option Status) → Session Status
apply_target row action (err e) = raise e
apply_target row action (ok none) = pure row.status
apply_target row action (ok (some status)) = do
  set_status row status
  event row.task_id (action_text action) (("status", text (status_text status)) ∷ [])
  pure status

unfoldable pub control : String → Action → Option ExpectedWorkflowState → Session Status
unfolding check_expected apply_target target
control task_id action expected = transaction (do
  row ← locked task_id
  check_expected row action expected
  apply_target row action (target action row.status))
