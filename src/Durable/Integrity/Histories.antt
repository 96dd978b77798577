-- ===== src/Durable/Integrity/Histories.antt =====
-- orchestration/durable_repository.py and orchestration/approvals.py: the database after any sequence of the operations, by any worker
-- and any client, each a transaction; those that fail are among them.
use auto_scholar.Prelude.{ℕ, String, ◌≡◌, refl, Bool, false, Option, []}
use auto_scholar.Prelude.Table.{Table, get}
use auto_scholar.Snapshot.{Value, Snapshot}
use auto_scholar.Plan.{PlanStep}
use auto_scholar.Durable.Rows.{Status, is_leased, Operation, Db}
use auto_scholar.Durable.Approvals.{gate}
use auto_scholar.Durable.Approvals.Decisions.{ApprovalDecision, decide_read}
use auto_scholar.Durable.Integrity.Gates.{gate-IsIntegral}
use auto_scholar.Durable.Integrity.Decisions.{decide_read-IsIntegral}
use auto_scholar.Durable.Session.{ExpectedWorkflowState}
use auto_scholar.Durable.Lease.{claim, heartbeat, quarantine}
use auto_scholar.Durable.Control.{Action, control}
use auto_scholar.Durable.Work.{begin, journal}
use auto_scholar.Durable.Save.{save}
use auto_scholar.Durable.Receipts.{Validators}
use auto_scholar.Durable.Enqueue.{enqueue}
use auto_scholar.Durable.Recovery.{reconcile_calls, queue_reconciled}
use auto_scholar.Durable.Integrity.{IsIntegral, countdown}
use auto_scholar.Durable.Integrity.Leases.{
  claim-IsIntegral, heartbeat-IsIntegral, quarantine-IsIntegral,
}
use auto_scholar.Durable.Integrity.Controls.{control-IsIntegral}
use auto_scholar.Durable.Integrity.Works.{begin-IsIntegral, journal-IsIntegral}
use auto_scholar.Durable.Integrity.Saves.{save-IsIntegral}
use auto_scholar.Durable.Integrity.Submissions.{enqueue-IsIntegral}
use auto_scholar.Durable.Integrity.Recoveries.{
  reconcile_calls-IsIntegral, queue_reconciled-IsIntegral,
}

-- One operation, with the parameters of its call. A worker saves with a status that no worker holds. A
-- decision has read some snapshot before its transaction.
pub data Step (db : Db) : Db → Type 0 where
  submits :
      (digest : Snapshot → String) (now : ℕ) (snapshot : Snapshot) (key request_hash : String)
      (require_managed : Bool)
      → Step db (enqueue digest now snapshot key request_hash require_managed db).1
  claims :
      (now later : ℕ) (owner : String) (lease_seconds : ℕ) (task_id : Option String)
      → Step db (claim now later owner lease_seconds task_id db).1
  beats :
      (now later : ℕ) (task_id owner : String) (generation lease_seconds : ℕ)
      → Step db (heartbeat now later task_id owner generation lease_seconds db).1
  quarantines :
      (now : ℕ) (task_id owner : String) (generation : ℕ)
      → Step db (quarantine now task_id owner generation db).1
  begins :
      (now : ℕ) (task_id owner : String) (generation : ℕ) (active : Table Value)
      → Step db (begin now task_id owner generation active db).1
  journals :
      (now : ℕ) (task_id owner : String) (generation : ℕ) (call_id kind : String) (starting : Bool)
      (usage : Table ℕ) (elapsed : ℕ)
      → Step db (journal now task_id owner generation call_id kind starting usage elapsed db).1
  saves :
      (digest : Snapshot → String) (now : ℕ) (task_id owner : String) (generation : ℕ)
      (snapshot : Snapshot) (usage : Table ℕ) (elapsed : ℕ) (status : Status)
      (error_code : Option String)
      → is_leased status ≡ false
      → Step db
          (save digest now task_id owner generation snapshot usage elapsed status error_code db).1
  controls :
      (task_id : String) (action : Action) (expected : Option ExpectedWorkflowState)
      → Step db (control task_id action expected db).1
  reconciles :
      (v : Validators) (now : ℕ) (task_id : String) (worker : Option (String × ℕ))
      (sequence : Option ℕ)
      → Step db (reconcile_calls v now task_id worker sequence db).1
  gates :
      (source_digest : Table String → String) (operation_digest : Operation → String) (now : ℕ)
      (run : Snapshot) (step : PlanStep) (owner : String) (generation : ℕ)
      → Step db (gate source_digest operation_digest now run step owner generation db).1
  decides :
      (digest : Snapshot → String) (operation_digest : Operation → String) (now : ℕ)
      (task_id : String) (approval_id : ℕ) (decision : ApprovalDecision)
      (expected : Option ExpectedWorkflowState) (read : Snapshot) (prior_sequence : ℕ)
      → Step db
          (decide_read digest operation_digest now task_id approval_id decision expected read
            prior_sequence db).1
  requeues : (task_id : String) (sequence : ℕ) → Step db (queue_reconciled task_id sequence db).1

pub Step-IsIntegral : (db db' : Db) → Step db db' → IsIntegral db → IsIntegral db'
Step-IsIntegral db _ (submits digest now snapshot key hash managed) w =
    enqueue-IsIntegral digest now snapshot key hash managed db w
Step-IsIntegral db _ (claims now later owner lease_seconds task_id) w =
    claim-IsIntegral now later owner lease_seconds task_id db w
Step-IsIntegral db _ (beats now later task_id owner generation lease_seconds) w =
    heartbeat-IsIntegral now later task_id owner generation lease_seconds db w
Step-IsIntegral db _ (quarantines now task_id owner generation) w =
    quarantine-IsIntegral now task_id owner generation db w
Step-IsIntegral db _ (begins now task_id owner generation active) w =
    begin-IsIntegral now task_id owner generation active db w
Step-IsIntegral db _ (journals now task_id owner generation call_id kind starting usage elapsed) w =
    journal-IsIntegral now task_id owner generation call_id kind starting usage elapsed db w
Step-IsIntegral db _
      (saves digest now task_id owner generation snapshot usage elapsed status code free) w =
    save-IsIntegral digest now task_id owner generation snapshot usage elapsed status code free db w
Step-IsIntegral db _ (controls task_id action expected) w =
    control-IsIntegral task_id action expected db w
Step-IsIntegral db _ (reconciles v now task_id worker sequence) w =
    reconcile_calls-IsIntegral v now task_id worker sequence db w
Step-IsIntegral db _ (gates source_digest operation_digest now run step owner generation) w =
    gate-IsIntegral source_digest operation_digest now run step owner generation db w
Step-IsIntegral db _
      (decides digest operation_digest now task_id approval_id decision expected read prior) w =
    decide_read-IsIntegral digest operation_digest now task_id approval_id decision expected read
      prior db w
Step-IsIntegral db _ (requeues task_id sequence) w =
    queue_reconciled-IsIntegral task_id sequence db w

-- A database with no task yet; profiles, projects and documents are as they may be.
pub record IsFresh (db : Db) : Type 0 where
  pub no_jobs : db.jobs ≡ []
  pub no_tasks : db.tasks ≡ []
  pub no_events : db.events ≡ []
  pub no_checkpoints : db.checkpoints ≡ []

pub data Reachable : Db → Type 0 where
  fresh : (db : Db) → IsFresh db → Reachable db
  next : (db db' : Db) → Reachable db → Step db db' → Reachable db'

fresh-IsIntegral : (db : Db) → IsFresh db → IsIntegral db
unfolding countdown get
fresh-IsIntegral db f = record {
  events = λ id. rw (f.no_events, f.no_tasks) refl;
  checkpoints = λ id. rw (f.no_checkpoints, f.no_jobs) refl;
  keyed = λ id row e. absurd (cc (rw f.no_jobs at e));
  owned = λ id row e. absurd (cc (rw f.no_jobs at e));
  unique = rw f.no_jobs tt;
  sound = λ id row e. absurd (cc (rw f.no_jobs at e));
}

-- From a database with no task, after any operations of the queue and of the approvals in any order by any
-- workers and clients, failed ones included: the events of every task and the checkpoints of every job are numbered 1, 2, 3, ... with no
-- gap and no repetition up to the counters in the rows; a job has an owner exactly when its status is
-- running, pause_requested or cancel_requested; and it has at most one open external call.
pub history-IsIntegral : (db : Db) → Reachable db → IsIntegral db
history-IsIntegral db (fresh _ f) = fresh-IsIntegral db f
history-IsIntegral db (next before _ r step) =
    Step-IsIntegral before db step (history-IsIntegral before r)
