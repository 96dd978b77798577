-- ===== src/Worker/Execute.antt =====
-- orchestration/durable.py, `_execute`: from the snapshot of a claimed workflow to the save of what one
-- unit made of it.
use auto_scholar.Prelude.{
  String, Bool, true, false, not, ◌&&◌, ◌||◌, Option, none, some, is_empty, str_eq, if◌then◌else◌,
}
use auto_scholar.Prelude.Result.{Result, ok, err, pure, modify, ◌>>=◌, ◌>>◌}
use auto_scholar.Budget.{BudgetLimits, bounded_by}
use auto_scholar.Snapshot.{Snapshot, Stage}
use auto_scholar.Runs.{Run, restore}
use auto_scholar.Durable.Rows.{
  Status, awaiting_approval, recovery_required, succeeded, failed, budget_exceeded, WorkflowJobRow,
  Db,
}
use auto_scholar.Durable.Lease.{quarantine}
use auto_scholar.Durable.Recovery.{snapshot}
use auto_scholar.Worker.{
  Flow, World, Failure, over_budget, interrupted, lost, raised, rename, failure_of, Agents, Claim,
  Clock,
}
use auto_scholar.Worker.Attempts.{Worker, Attempt, invalid, save_run, attempt, concluded, suspended}

-- The `except` clauses; a lost lease is raised again.
unfoldable pub except : Stage → Failure → Result Failure Attempt
except stage over_budget = ok (concluded budget_exceeded (some "autonomous_budget_exceeded") stage)
except stage interrupted = ok (concluded recovery_required (some "workflow_interrupted") stage)
except stage lost = err lost
except stage (raised code) = ok (
    concluded
      (if str_eq code "approval_required"
        then awaiting_approval
        else if str_eq code "operation_uncertain" || str_eq code "checkpoint_integrity_failed"
        then recovery_required
        else failed)
      (some code) stage)

unfoldable pub caught : Stage → Flow Attempt → Flow Attempt
unfolding except
caught stage m w = elim (m w).0 [ ok a ↦ (ok a, (m w).1) | err e ↦ (except stage e, (m w).1) ]

abbrev pub ends_badly : Status → Bool
ends_badly failed = true
ends_badly budget_exceeded = true
ends_badly _ = false

abbrev pub has_answer : Option String → Bool
has_answer none = false
has_answer (some answer) = not (str_eq answer "")

abbrev pub leaves_draft : Status → Run → Bool
leaves_draft status run =
    ends_badly status && not (is_empty run.quality.sections) && not (has_answer run.answer)

-- An unfinished draft becomes the answer of a run that ends badly.
unfoldable pub keep_draft : Worker → Status → World → World
keep_draft w status world =
    if leaves_draft status world.run
    then record world { run = record world.run { answer = some (w.render world.run) } }
    else world

abbrev pub is_succeeded : Status → Bool
is_succeeded succeeded = true
is_succeeded _ = false

unfoldable pub learn_if : Worker → Status → World → World
learn_if w status world =
    if is_succeeded status then record world { db = w.learn world.run world.db } else world

unfoldable pub finish : Worker → Clock → Claim → Snapshot → Attempt → Flow (Unit {0})
unfolding keep_draft learn_if
finish w clock claim s suspended = pure tt
finish w clock claim s (concluded status code stage) = do
  modify (keep_draft w status)
  save_run w clock.saved claim s stage status code
  modify (learn_if w status)

-- The run of a snapshot, within the limits of the service.
abbrev pub restored_world : BudgetLimits → Run → Db → World
restored_world limits run db = record {
  run = record run { budget = record run.budget { limits = limits } };
  db = db;
}

abbrev pub execute_job :
    Worker → Clock → Claim → Agents → Snapshot → WorkflowJobRow → Flow (Unit {0})
execute_job w clock claim agents s job = do
  result ← caught s.stage (attempt w clock claim agents s job)
  finish w clock claim s result

-- `none` is the `ValidationError` of limits that do not fit those of the service.
unfoldable pub execute_snapshot :
    Worker
    → Clock
    → Claim
    → Agents
    → Snapshot
    → WorkflowJobRow
    → Db
    → Result Failure (Unit {0}) × Db
unfolding caught finish attempt
execute_snapshot w clock claim agents s job db =
    let run = restore s job.usage job.active_seconds clock.restored in
    elim (bounded_by run.budget.limits w.limits) [
      | none ↦ (err invalid, db)
      | some limits ↦
          let out = execute_job w clock claim agents s job (restored_world limits run db) in
          (out.0, out.1.db)
    ]

unfoldable pub execute : Worker → Clock → Claim → Agents → Db → Result Failure (Unit {0}) × Db
unfolding execute_snapshot
execute w clock claim agents db = elim (snapshot w.digest claim.task_id db).0 [
  | err e ↦
      let out =
        quarantine clock.restored claim.task_id claim.owner claim.generation
          (snapshot w.digest claim.task_id db).1 in
      (rename failure_of out.0, out.1)
  | ok (s, job) ↦ execute_snapshot w clock claim agents s job (snapshot w.digest claim.task_id db).1
]
