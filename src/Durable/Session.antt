-- ===== src/Durable/Session.antt =====
-- orchestration/durable_repository.py, the parts that the operations share: events, the row lock, the
-- fence, the state that a client expects, status changes and checkpoints. A clock reading is a number
-- of microseconds.
use auto_scholar.Prelude.{
  ℕ, ◌+◌, ◌/◌, max, String, Bool, true, false, ◌&&◌, Option, none, some, [], ◌∷◌, str_eq, ltb, ◌==◌,
  get_or, if◌then◌else◌,
}
use auto_scholar.Prelude.Table.{Table, get, put}
use auto_scholar.Prelude.Result.{ok, err, Exec}
use auto_scholar.Snapshot.{Value, Snapshot}
use auto_scholar.Durable.Rows.{
  Status, recovery_required, WorkflowJobRow, AgentTaskRow, WorkflowCheckpointRow, WorkflowEventRow,
  Db,
}

-- `AppError` by its code, and the other exceptions of these modules.
pub data Error : Type 0 where
  lease_lost assertion_failed unknown_action integrity_error : Error
  workflow_not_found workbench_state_stale idempotency_conflict workflow_state_conflict : Error
  model_selection_required task_type_removed documents_selection_required : Error
  model_profile_unavailable project_not_found selected_documents_unavailable : Error
  checkpoint_integrity_failed operation_uncertain approval_required workflow_cancel_requested :
      Error
  approval_not_found approval_stale approval_expired_or_decided approval_already_decided : Error
  no_source validation_error : Error

abbrev pub Session : Type 0 → Type 0
Session A = Exec Error Db A

-- `update(AgentTaskRow)...returning(...)`, then the insertion of the event.
unfoldable pub event : String → String → Table Value → Session (Unit {0})
event task_id kind payload db = elim (get db.tasks task_id) [
  | none ↦ (err workflow_not_found, db)
  | some task ↦
      let sequence = task.event_sequence + 1 in
      let row : WorkflowEventRow = record {
        id = db.drawn;
        task_id = task_id;
        kind = kind;
        sequence = sequence;
        payload = payload;
      } in
      (
        ok tt,
        record db {
          tasks = put db.tasks task_id (record task { event_sequence = sequence });
          events = row ∷ db.events;
          drawn = db.drawn + 1;
        },
      )
]

unfoldable pub locked : String → Session WorkflowJobRow
locked task_id db = elim (get db.jobs task_id) [
  | none ↦ (err workflow_not_found, db)
  | some row ↦ (ok row, db)
]

-- The write of the attributes of a job that is held.
unfoldable pub write_job : WorkflowJobRow → Session (Unit {0})
write_job row db = (ok tt, record db { jobs = put db.jobs row.task_id row })

abbrev pub is_owner : Option String → String → Bool
is_owner none owner = false
is_owner (some holder) owner = str_eq holder owner

abbrev pub lease_runs : Option ℕ → ℕ → Bool
lease_runs none now = false
lease_runs (some until) now = ltb now until

-- The test of `fence`, the other way round.
abbrev pub holds_lease : WorkflowJobRow → String → ℕ → ℕ → Bool
holds_lease row owner generation now =
    is_owner row.owner owner && row.generation == generation && lease_runs row.lease_until now

unfoldable pub fence : WorkflowJobRow → String → ℕ → ℕ → Session (Unit {0})
fence row owner generation now db =
    if holds_lease row owner generation now then (ok tt, db) else (err lease_lost, db)

pub record ExpectedWorkflowState : Type 0 where
  pub status : Status
  pub checkpoint_sequence : ℕ
  pub event_sequence : ℕ

pub Status-discrete : Discrete Status
Status-discrete = hlevel

abbrev pub same_status : Status → Status → Bool
same_status a b = elim (Status-discrete a b) [ yes _ ↦ true | no _ ↦ false ]

-- `update(AgentTaskRow).where(id, no parent, event_sequence)` with a value that changes nothing.
abbrev pub task_matches : Option AgentTaskRow → ℕ → Bool
task_matches none sequence = false
task_matches (some task) sequence = elim task.parent_task_id [
  | some _ ↦ false
  | none ↦ task.event_sequence == sequence
]

abbrev pub is_expected : WorkflowJobRow → ExpectedWorkflowState → Db → Bool
is_expected row expected db =
    same_status row.status expected.status
    && row.checkpoint_sequence == expected.checkpoint_sequence
    && task_matches (get db.tasks row.task_id) expected.event_sequence

unfoldable pub expect : WorkflowJobRow → ExpectedWorkflowState → Session (Unit {0})
unfolding Status-discrete
expect row expected db =
    if is_expected row expected db then (ok tt, db) else (err workbench_state_stale, db)

abbrev pub second : ℕ
second = 1000000

-- `dict(row.usage) | {"wall_seconds": int(row.active_seconds)}`.
abbrev pub metrics_of : WorkflowJobRow → Table ℕ
metrics_of row = put row.usage "wall_seconds" (row.active_seconds / second)

abbrev pub message_of : Status → Option String
message_of recovery_required =
    some "Execution needs inspection; no automatic replay of uncertain operations"
message_of _ = none

-- The method `status`: the job and its task get the status; the job as it then is is returned.
unfoldable pub set_status : WorkflowJobRow → Status → Session WorkflowJobRow
set_status row status db = elim (get db.tasks row.task_id) [
  | none ↦ (err assertion_failed, db)
  | some task ↦ (
    ok (record row { status = status }),
    record db {
      jobs = put db.jobs row.task_id (record row { status = status });
      tasks = put db.tasks row.task_id (record task {
        status = status;
        metrics = metrics_of row;
        error_code = row.error_code;
        error_message = message_of status;
      });
    },
  )
]

-- The method `checkpoint`; `digest` is the SHA-256 of the canonical JSON.
unfoldable pub checkpoint : (Snapshot → String) → WorkflowJobRow → Snapshot → Session WorkflowJobRow
checkpoint digest row snapshot db =
    let row' = record row { checkpoint_sequence = row.checkpoint_sequence + 1 } in
    let saved : WorkflowCheckpointRow = record {
      id = db.drawn;
      task_id = row.task_id;
      sequence = row.checkpoint_sequence + 1;
      payload = snapshot;
      sha256 = digest snapshot;
    } in
    (
      ok row',
      record db {
        jobs = put db.jobs row.task_id row';
        checkpoints = saved ∷ db.checkpoints;
        drawn = db.drawn + 1;
      },
    )

-- `{key: max(value, row.usage.get(key, 0)) for key, value in usage.items()}`.
unfoldable pub merge_usage : Table ℕ → Table ℕ → Table ℕ
merge_usage [] old = []
merge_usage ((key, value) ∷ usage) old =
    (key, max value (get_or (get old key) 0)) ∷ merge_usage usage old
