-- ===== src/Durable/Integrity.antt =====
-- orchestration/durable_repository.py: what every operation keeps true of the database, and the shared
-- steps that keep it.
pub mod Events
pub mod Guards
pub mod Jobs
pub mod Tasks
pub mod Leases
pub mod Controls
pub mod Works
pub mod Saves
pub mod Submissions
pub mod Recoveries
pub mod Gates
pub mod Decisions
pub mod Histories
use auto_scholar.Prelude.{
  ℕ, zero, suc, ◌+◌, ◌≤◌, String, ◌≡◌, refl, Bool, true, false, Option, none, some, List, [], ◌∷◌,
  map, keep_if, length, is_some, str_eq, eq_iff, eq_refl, arith, get_or, Option-cases, Bool-cases,
  ◌⊎◌, inl, inr, ap, sym, ◌∙◌,
}
use native.Mathlib.Numerals.{unary_clauses}
use auto_scholar.Prelude.Table.{Table, get, put, get-put, get-put_self, IsUnique, put-IsUnique}
use auto_scholar.Prelude.Result.{ok, err, pure, transaction, ◌>>=◌, ◌>>◌}
use auto_scholar.Prelude.Ensures.{
  Ensures, After, After-at, Ensures-bind, Ensures-weaken, Ensures-pure, Keeps, Keeps-transaction,
}
use auto_scholar.Snapshot.{Value, Snapshot}
use auto_scholar.Durable.Rows.{
  Status, is_leased, WorkflowJobRow, AgentTaskRow, WorkflowCheckpointRow, WorkflowEventRow, Db,
}
use auto_scholar.Durable.Session.{
  Session, event, locked, write_job, fence, set_status, checkpoint, metrics_of, message_of,
  holds_lease, lease_lost, workflow_not_found,
}

-- n, n - 1, ..., 1.
pub countdown : ℕ → List ℕ
countdown zero = []
countdown (suc n) = suc n ∷ countdown n

pub countdown_step : (n : ℕ) → countdown (n + 1) ≡ (n + 1) ∷ countdown n
unfolding countdown
countdown_step n = simp unary_clauses refl

-- The numbers of a task's events, the newest first, and of its checkpoints.
abbrev pub event_numbers : String → List WorkflowEventRow → List ℕ
event_numbers task_id rows =
    map (λ (row : WorkflowEventRow). row.sequence)
      (keep_if (λ row. str_eq row.task_id task_id) rows)

abbrev pub checkpoint_numbers : String → List WorkflowCheckpointRow → List ℕ
checkpoint_numbers task_id rows =
    map (λ (row : WorkflowCheckpointRow). row.sequence)
      (keep_if (λ row. str_eq row.task_id task_id) rows)

-- The counters, 0 for what is not there.
abbrev pub last_event : Option AgentTaskRow → ℕ
last_event none = 0
last_event (some task) = task.event_sequence

abbrev pub last_checkpoint : Option WorkflowJobRow → ℕ
last_checkpoint none = 0
last_checkpoint (some row) = row.checkpoint_sequence

-- A job's own consistency: it has an owner exactly when its status is one of a leased job, and at most
-- one external call is open.
pub record IsSound (row : WorkflowJobRow) : Type 0 where
  pub leased : is_some row.owner ≡ is_leased row.status
  pub single : length row.pending_calls ≤ 1

-- The events and the checkpoints of each task are numbered from 1 without a gap up to the counter of the
-- task and of the job; a job stands under its task's identifier, has a task, and is sound.
pub record IsIntegral (db : Db) : Type 0 where
  pub events : (id : String) → event_numbers id db.events ≡ countdown (last_event (get db.tasks id))
  pub checkpoints :
      (id : String)
      → checkpoint_numbers id db.checkpoints ≡ countdown (last_checkpoint (get db.jobs id))
  pub keyed : (id : String) (row : WorkflowJobRow) → get db.jobs id ≡ some row → row.task_id ≡ id
  pub owned :
      (id : String) (row : WorkflowJobRow)
      → get db.jobs id ≡ some row
      → is_some (get db.tasks id) ≡ true
  pub unique : IsUnique db.jobs
  pub sound : (id : String) (row : WorkflowJobRow) → get db.jobs id ≡ some row → IsSound row

-- A row that may be written: its counter is that of the stored job, and its task exists.
pub record IsWritable (row : WorkflowJobRow) (db : Db) : Type 0 where
  pub integral : IsIntegral db
  pub numbered : last_checkpoint (get db.jobs row.task_id) ≡ row.checkpoint_sequence
  pub has_task : is_some (get db.tasks row.task_id) ≡ true
