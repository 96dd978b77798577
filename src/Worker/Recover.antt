-- ===== src/Worker/Recover.antt =====
-- orchestration/durable.py, `reconcile`: a client has the worker look again at a workflow that waits for its
-- recovery. The listing of the operations, which the answer carries as well, is left out.
pub mod Calls
pub mod Evidence
pub mod Settled
use auto_scholar.Prelude.{
  ℕ, ◌==◌, String, Bool, true, false, ◌||◌, none, some, [], is_empty, str_eq, if◌then◌else◌, ◌≡◌,
  refl, inl, inr, Bool-cases, Option-cases, not, arith, Option,
}
use auto_scholar.Prelude.Table.{Table, get}
use auto_scholar.Prelude.Result.{Result, ok, err, Result-cases, ◌>>=◌, ◌>>◌}
use auto_scholar.Snapshot.{Value, Snapshot}
use auto_scholar.Runs.{restore}
use auto_scholar.Durable.Rows.{Status, queued, recovery_required, WorkflowJobRow, Db}
use auto_scholar.Durable.Recovery.{snapshot, reconcile_calls, queue_reconciled, is_reconciled}
use auto_scholar.Durable.Session.{Error}
use auto_scholar.Worker.{Flow, World, Failure, raised, failure_of, Clock}
use auto_scholar.Worker.Reconcile.{reconcile, verify_sources}
use auto_scholar.Worker.Attempts.{Worker}

-- What `except AppError` catches of the failures of `_reconcile` and `_verify_sources`.
unfoldable pub is_app_error : Failure → Bool
is_app_error (raised code) =
    str_eq code "operation_uncertain" || str_eq code "checkpoint_integrity_failed"
is_app_error _ = false

unfoldable pub verify_unit : Worker → Table Value → Flow (Unit {0})
verify_unit w active = do reconcile w.files w.records active; verify_sources w.files

abbrev pub Answer : Type 0
Answer = Result Failure (Status × Table String) × Db

abbrev pub queue_answer : Table String → Result Error Status × Db → Answer
queue_answer pending (ok status, db) = (ok (status, pending), db)
queue_answer pending (err e, db) = (err (failure_of e), db)

unfoldable pub requeue : String → ℕ → Table String → Result Failure (Unit {0}) → Db → Answer
requeue task_id sequence pending (err e) db =
    (if is_app_error e then ok (recovery_required, pending) else err e, db)
requeue task_id sequence pending (ok _) db =
    queue_answer pending (queue_reconciled task_id sequence db)

-- The run of the snapshot, in memory.
abbrev pub recovered_world : Clock → Snapshot → WorkflowJobRow → Db → World
recovered_world clock s job db = record {
  run = restore s job.usage job.active_seconds clock.restored;
  db = db;
}

unfoldable pub recover_unit :
    Worker → Clock → String → ℕ → Snapshot → WorkflowJobRow → Table String → Db → Answer
unfolding requeue
recover_unit w clock task_id sequence s job pending db =
    if is_empty pending
    then requeue task_id sequence pending
        (verify_unit w job.active (recovered_world clock s job db)).0 db
    else (ok (recovery_required, pending), db)

unfoldable pub recover_calls : Worker → Clock → String → ℕ → Snapshot → WorkflowJobRow → Db → Answer
unfolding recover_unit
recover_calls w clock task_id sequence s job db =
    let out = reconcile_calls w.validators clock.reconciled task_id none (some sequence) db in
    elim out.0 [
      | err e ↦ (err (failure_of e), out.1)
      | ok pending ↦ recover_unit w clock task_id sequence s job pending out.1
    ]

unfoldable pub recover : Worker → Clock → String → ℕ → Db → Answer
unfolding recover_calls
recover w clock task_id sequence db =
    let out = snapshot w.digest task_id db in
    elim out.0 [
      | err e ↦ (err (failure_of e), out.1)
      | ok (s, job) ↦
          if job.checkpoint_sequence == sequence
          then recover_calls w clock task_id sequence s job out.1
          else (err (raised "workflow_state_conflict"), out.1)
    ]
