-- ===== src/Worker/Integrity/Jobs.antt =====
-- orchestration/durable.py, `_execute` as a whole keeps the database integral.
use auto_scholar.Prelude.{
  String, Option, none, some, ◌≡◌, refl, inl, inr, find, Bool-cases, Option-cases, str_eq,
}
use auto_scholar.Prelude.Table.{get}
use auto_scholar.Prelude.Result.{Result, ok, err, pure, gets, modify, go_on, Result-cases, ◌>>=◌}
use auto_scholar.Budget.{bounded_by}
use auto_scholar.Snapshot.{Snapshot}
use auto_scholar.Runs.{Run, restore}
use auto_scholar.Durable.Rows.{Status, WorkflowJobRow, WorkflowCheckpointRow, Db}
use auto_scholar.Durable.Session.{Session, Error, locked}
use auto_scholar.Runs.{model_validate}
use auto_scholar.Durable.Recovery.{snapshot, read_checkpoint, is_checkpoint_of}
use auto_scholar.Durable.Integrity.{IsIntegral}
use auto_scholar.Durable.Integrity.Leases.{quarantine-IsIntegral}
use auto_scholar.Worker.{World, Failure, Agents, Claim, Clock}
use auto_scholar.Worker.Execute.{
  except, caught, keep_draft, leaves_draft, learn_if, is_succeeded, finish, restored_world,
  execute_job, execute_snapshot, execute,
}
use auto_scholar.Worker.Attempts.{Worker, Attempt, concluded, suspended, attempt}
use auto_scholar.Worker.Outcomes.{IsConcluded, outcome-IsConcluded}
use auto_scholar.Worker.Integrity.{
  Steady, Anyway, AreCareful, Steady-keeps, Steady-pure, Steady-bind,
}
use auto_scholar.Worker.Integrity.Executions.{save_run-Steady, attempt-Steady}

-- An operation that only reads the database.
abbrev Reads : {A : Type 0} → Session A → Type 0
Reads m = (db : Db) → (m db).1 ≡ db

Reads-go :
    {A B : Type 0} (f : A → Session B) (db : Db)
    → ((a : A) → Reads (f a))
    → (out : Result Error A × Db) → out.1 ≡ db
    → (go_on f out).1 ≡ db
Reads-go f db h (ok a, db') e = rw (h a db') e
Reads-go f db h (err e', db') e = e

Reads-bind :
    {A B : Type 0} (m : Session A) (f : A → Session B)
    → Reads m
    → ((a : A) → Reads (f a))
    → Reads (m >>= f)
Reads-bind m f r h db = Reads-go f db h (m db) (r db)

locked-Reads : (id : String) → Reads (locked id)
unfolding locked
locked-Reads id db = elim (Option-cases (get db.jobs id)) [
  | inl missing ↦ rw (missing, locked) refl
  | inr (row, found) ↦ rw (found, locked) refl
]

read_checkpoint-Reads :
    (digest : Snapshot → String) (id : String) (found : Option WorkflowCheckpointRow)
    → Reads (read_checkpoint digest id found)
unfolding read_checkpoint
read_checkpoint-Reads digest id none db = refl
read_checkpoint-Reads digest id (some row) db =
    elim (Bool-cases (str_eq row.sha256 (digest row.payload))) [
      | inl same ↦ elim (Option-cases (model_validate row.payload)) [
        | inl refused ↦ rw (same, refused) refl
        | inr (saved, valid) ↦ elim (Bool-cases (str_eq saved.task_id id)) [
          | inl own ↦ rw (same, valid, own) refl
          | inr other ↦ rw (same, valid, other) refl
        ]
      ]
      | inr bad ↦ rw bad refl
    ]

pub snapshot-Reads : (digest : Snapshot → String) (id : String) → Reads (snapshot digest id)
unfolding snapshot
snapshot-Reads digest id =
    Reads-bind (locked id)
      (λ row. do
        found ←
            gets (λ (db : Db). find (is_checkpoint_of id row.checkpoint_sequence) db.checkpoints)
        saved ← read_checkpoint digest id found
        pure (saved, row))
      (locked-Reads id)
      (λ row.
        Reads-bind
          (gets (λ (db : Db). find (is_checkpoint_of id row.checkpoint_sequence) db.checkpoints))
          (λ found. do saved ← read_checkpoint digest id found; pure (saved, row)) (λ db. refl)
          (λ found.
            Reads-bind (read_checkpoint digest id found) (λ saved. pure (saved, row))
              (read_checkpoint-Reads digest id found) (λ saved db. refl)))

module _ (w : Worker) (clock : Clock) (claim : Claim) where
  -- What is learned of a success leaves the database integral too.
  abbrev pub LearnsWell : Type 0
  LearnsWell = (run : Run) (db : Db) → IsIntegral db → IsIntegral (w.learn run db)

  keep_draft-IsIntegral :
      (status : Status) (world : World)
      → IsIntegral world.db
      → IsIntegral (keep_draft w status world).db
  unfolding keep_draft
  keep_draft-IsIntegral status world i = elim (Bool-cases (leaves_draft status world.run)) [
    | inl draft ↦ rw draft i
    | inr none_left ↦ rw none_left i
  ]

  learn_if-IsIntegral :
      (status : Status) (world : World)
      → LearnsWell
      → IsIntegral world.db
      → IsIntegral (learn_if w status world).db
  unfolding learn_if
  learn_if-IsIntegral status world learns i = elim (Bool-cases (is_succeeded status)) [
    | inl won ↦ rw won (learns world.run world.db i)
    | inr other ↦ rw other i
  ]

  finish-Steady :
      (s : Snapshot) (job : WorkflowJobRow) (a : Attempt)
      → LearnsWell
      → IsConcluded s job a
      → Steady (finish w clock claim s a) Anyway
  unfolding finish
  finish-Steady s job suspended learns c = Steady-pure Anyway tt tt
  finish-Steady s job (concluded status code stage) learns (free, earned) =
      Steady-bind
        (Steady-keeps (modify (keep_draft w status))
          (λ world i. keep_draft-IsIntegral status world i))
        (λ _ _.
          Steady-bind (save_run-Steady w clock claim clock.saved s stage status code free) (λ _ _.
            Steady-keeps (modify (learn_if w status))
              (λ world i. learn_if-IsIntegral status world learns i)))

  module _ (agents : Agents) (careful : AreCareful agents) (learns : LearnsWell) where
    caught-Steady :
        (s : Snapshot) (job : WorkflowJobRow)
        → Steady (caught s.stage (attempt w clock claim agents s job)) (IsConcluded s job)
    unfolding caught
    caught-Steady s job = record {
      integral = λ world i.
          kept (attempt w clock claim agents s job world)
            ((attempt-Steady w clock claim agents careful s job).integral world i);
      returns = λ world. outcome-IsConcluded w clock claim agents s job world;
    }
      where
        kept :
            (out : Result Failure Attempt × World)
            → IsIntegral out.1.db
            → IsIntegral
                (elim out.0 as (λ _. Result Failure Attempt × World) [
                  | ok a ↦ (ok a, out.1)
                  | err e ↦ (except s.stage e, out.1)
                ]).1.db
        kept (ok a, after) i = i
        kept (err e, after) i = i

    execute_job-Steady :
        (s : Snapshot) (job : WorkflowJobRow)
        → Steady (execute_job w clock claim agents s job) Anyway
    execute_job-Steady s job =
        Steady-bind (caught-Steady s job) (λ a c. finish-Steady s job a learns c)

    execute_snapshot-IsIntegral :
        (s : Snapshot) (job : WorkflowJobRow) (db : Db)
        → IsIntegral db
        → IsIntegral (execute_snapshot w clock claim agents s job db).1
    unfolding execute_snapshot
    execute_snapshot-IsIntegral s job db i =
        let run = restore s job.usage job.active_seconds clock.restored in
        elim (Option-cases (bounded_by run.budget.limits w.limits)) [
          | inl invalid ↦ rw (invalid, execute_snapshot) i
          | inr (limits, valid) ↦
              rw (valid, execute_snapshot)
                ((execute_job-Steady s job).integral (restored_world limits run db) i)
        ]

-- An execution of a claimed workflow keeps the database integral, whatever it comes to: a snapshot
-- that cannot be read, a lost lease, an interruption, an exhausted budget, a failure of an agent or a
-- success. Of the agents, and of what is learned of a success, only that is asked which is asked of
-- the repository's own operations: that they leave an integral database integral.
pub execute-IsIntegral :
    (w : Worker) (clock : Clock) (claim : Claim) (agents : Agents) (db : Db)
    → AreCareful agents
    → LearnsWell w clock claim
    → IsIntegral db
    → IsIntegral (execute w clock claim agents db).1
unfolding execute
execute-IsIntegral w clock claim agents db careful learns i =
    let same = snapshot-Reads w.digest claim.task_id db in
    let read : IsIntegral (snapshot w.digest claim.task_id db).1 = rw same i in
    elim (Result-cases (snapshot w.digest claim.task_id db).0) [
      | inl (e, broken) ↦
          rw (broken, execute)
            (quarantine-IsIntegral clock.restored claim.task_id claim.owner claim.generation _ read)
      | inr ((s, job), found) ↦
          rw (found, execute)
            (execute_snapshot-IsIntegral w clock claim agents careful learns s job _ read)
    ]
