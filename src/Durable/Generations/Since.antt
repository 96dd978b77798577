-- ===== src/Durable/Generations/Since.antt =====
-- orchestration/durable_repository.py and orchestration/approvals.py: the generation of a job over any sequence of
-- the operations.
use auto_scholar.Prelude.{
  ℕ, String, ◌≡◌, Bool, true, false, not, ◌&&◌, ◌||◌, ◌==◌, Option, none, some, [], any, is_some,
  str_eq, sym, subst, inl, inr, Bool-cases,
}
use auto_scholar.Prelude.Table.{get}
use auto_scholar.Prelude.Result.{Result, ok, err, modify}
use auto_scholar.Prelude.Ensures.{
  Ensures, Ensures-bind, Ensures-pure, Ensures-raise, Ensures-gets, Ensures-weaken, Ensures-assume,
  Ensures-if,
}
use auto_scholar.Plan.{ExperimentSpecification, TaskPlan}
use auto_scholar.Snapshot.{Snapshot}
use auto_scholar.Durable.Rows.{WorkflowJobRow, WorkflowApprovalRow, Operation, TaskPlanRow, Db}
use auto_scholar.Durable.Session.{
  Error, workflow_state_conflict, approval_stale, assertion_failed, approval_not_found,
  idempotency_conflict, ExpectedWorkflowState,
}
use auto_scholar.Durable.Enqueue.{
  enqueue, submit_new, insert, add_task, new_task, new_job, find_key,
}
use auto_scholar.Durable.Approvals.{modified}
use auto_scholar.Durable.Approvals.Decisions.{
  DecisionAction, approve, reject, modify_operation, ApprovalDecision, decided_job, decide_approval,
  record_decision, decision_payload, is_awaiting, lacks_parameters, check_row, refuse_error,
  add_plan, save_modified, apply_modification, decide_new, decide_row, decide_found, decide_read,
  is_repeated, expect_if, find_row,
}
use auto_scholar.Durable.Integrity.Submissions.{resolve-Ensures}
use auto_scholar.Durable.Integrity.Histories.{
  Step, submits, claims, beats, quarantines, begins, journals, saves, controls, reconciles, gates,
  decides, requeues, Step-IsIntegral,
}
use auto_scholar.Durable.Generations.{
  Risen, Fits, Ready, set_status-Risen, checkpoint-Risen, event-Risen, refuse-Risen, locked-Risen,
  transaction-Risen,
}
use auto_scholar.Durable.Generations.Works.{
  claim-Risen, heartbeat-Risen, quarantine-Risen, begin-Risen, journal-Risen, save-Risen,
}
use auto_scholar.Durable.Generations.Clients.{
  expect-Risen, control-Risen, reconcile_calls-Risen, queue_reconciled-Risen, gate-Risen,
}

module _ (id : String) (g : ℕ) where
  add_plan-Risen :
      (snapshot : Snapshot) (plan : Option TaskPlan)
      → Ensures (Risen id g) (add_plan snapshot plan) (λ _. Risen id g)
  unfolding add_plan
  add_plan-Risen snapshot none = record { holds = λ db r. tt }
  add_plan-Risen snapshot (some plan) = record {
    holds = λ db r.
        elim (Bool-cases (
          any
            (λ (other : TaskPlanRow).
              str_eq other.task_id snapshot.task_id && other.version == snapshot.version)
            db.plans)) [ inl taken ↦ rw taken tt | inr free ↦ rw free r ];
  }

  save_modified-Risen :
      (digest : Snapshot → String) (job : WorkflowJobRow) (out : Result Error Snapshot)
      → Fits id g job
      → Ensures
          (Risen id g)
          (save_modified digest job out)
          (λ row db. Risen id g db × Fits id g row)
  unfolding save_modified
  save_modified-Risen digest job (err e) fits = Ensures-raise e
  save_modified-Risen digest job (ok snapshot) fits =
      Ensures-bind (add_plan-Risen snapshot snapshot.plan)
        (λ _. checkpoint-Risen id g digest job snapshot fits)

  apply_modification-Risen :
      (digest : Snapshot → String) (job : WorkflowJobRow) (snapshot : Snapshot)
      (action : DecisionAction) (specification : Option ExperimentSpecification)
      → Fits id g job
      → Ensures
          (Risen id g)
          (apply_modification digest job snapshot action specification)
          (λ row db. Risen id g db × Fits id g row)
  unfolding apply_modification
  apply_modification-Risen digest job snapshot modify_operation none fits =
      Ensures-raise assertion_failed
  apply_modification-Risen digest job snapshot modify_operation (some specification) fits =
      save_modified-Risen digest job (modified snapshot specification) fits
  apply_modification-Risen digest job snapshot approve specification fits =
      Ensures-pure job (λ db r. (r, fits))
  apply_modification-Risen digest job snapshot reject specification fits =
      Ensures-pure job (λ db r. (r, fits))

  decided-Risen :
      (now : ℕ) (key : String) (n : ℕ) (decision : ApprovalDecision)
      → Ensures {E = Error}
          (Risen id g)
          (modify (λ (db : Db). record db {
            approvals = decide_approval now key n decision db.approvals;
          }))
          (λ _. Risen id g)
  decided-Risen now key n decision = record { holds = λ db r. r }

  record_decision-Risen :
      (now : ℕ) (key : String) (decision : ApprovalDecision) (n : ℕ) (job : WorkflowJobRow)
      → Fits id g job
      → Ensures (Risen id g) (record_decision now key decision n job) (λ _. Risen id g)
  unfolding record_decision
  record_decision-Risen now key decision n job fits =
      Ensures-bind (decided-Risen now key n decision) (λ _.
        Ensures-bind (set_status-Risen id g job (decided_job decision.action) fits) (λ _.
          Ensures-bind (event-Risen id g key "approval_decided" (decision_payload n decision))
            (λ _. Ensures-pure (decided_job decision.action) (λ db r. r))))

  refuse_error-Risen : (e : Option Error) → Ensures (Risen id g) (refuse_error e) (λ _. Risen id g)
  refuse_error-Risen none = Ensures-pure tt (λ db r. r)
  refuse_error-Risen (some e) = Ensures-raise e

  decide_new-Risen :
      (digest : Snapshot → String) (now : ℕ) (key : String) (decision : ApprovalDecision)
      (snapshot : Snapshot) (prior : ℕ) (job : WorkflowJobRow) (row : WorkflowApprovalRow)
      → Fits id g job
      → Ensures
          (Risen id g)
          (decide_new digest now key decision snapshot prior job row)
          (λ _. Risen id g)
  unfolding decide_new
  decide_new-Risen digest now key decision snapshot prior job row fits =
      Ensures-bind
        (refuse-Risen id g (not (is_awaiting job.status) || not (job.checkpoint_sequence == prior))
          workflow_state_conflict)
        (λ _.
          Ensures-bind (refuse-Risen id g (lacks_parameters decision snapshot) assertion_failed)
            (λ _. Ensures-bind (refuse_error-Risen (check_row now decision.action row)) (λ _.
              Ensures-bind
                (apply_modification-Risen digest job snapshot decision.action decision.specification
                  fits)
                (λ job'.
                  Ensures-assume
                    (λ fits'. record_decision-Risen now key decision row.id job' fits')))))

  decide_found-Risen :
      (digest : Snapshot → String) (operation_digest : Operation → String) (now : ℕ) (key : String)
      (decision : ApprovalDecision) (snapshot : Snapshot) (prior : ℕ) (job : WorkflowJobRow)
      (found : Option WorkflowApprovalRow)
      → Fits id g job
      → Ensures
          (Risen id g)
          (decide_found digest operation_digest now key decision snapshot prior job found)
          (λ _. Risen id g)
  unfolding decide_found decide_row
  decide_found-Risen digest operation_digest now key decision snapshot prior job none fits =
      Ensures-raise approval_not_found
  decide_found-Risen digest operation_digest now key decision snapshot prior job (some row) fits =
      Ensures-bind
        (refuse-Risen id g
          (not (str_eq row.operation_sha256 decision.operation_sha256)
            || not (str_eq (operation_digest row.payload) decision.operation_sha256)
            || not (row.payload.plan_version == snapshot.version))
          approval_stale)
        (λ _.
          Ensures-if (is_repeated decision.action row.status)
            (λ again. Ensures-pure job.status (λ db r. r))
            (λ fresh. decide_new-Risen digest now key decision snapshot prior job row fits))

  expect_if-Risen :
      (row : WorkflowJobRow) (expected : Option ExpectedWorkflowState)
      → Ensures (Risen id g) (expect_if row expected) (λ _. Risen id g)
  expect_if-Risen row none = Ensures-pure tt (λ db r. r)
  expect_if-Risen row (some expected) = expect-Risen id g row expected

  decide_read-Risen :
      (digest : Snapshot → String) (operation_digest : Operation → String) (now : ℕ) (key : String)
      (n : ℕ) (decision : ApprovalDecision) (expected : Option ExpectedWorkflowState)
      (snapshot : Snapshot) (prior : ℕ) (db : Db)
      → Ready id g db
      → Risen id g
          (decide_read digest operation_digest now key n decision expected snapshot prior db).1
  unfolding decide_read
  decide_read-Risen digest operation_digest now key n decision expected snapshot prior =
      locked-Risen id g key _ (λ job fits. Ensures-bind (expect_if-Risen job expected) (λ _.
        Ensures-bind
          (Ensures-gets {Q = λ _. Risen id g} (λ (db : Db). find_row key n db.approvals)
            (λ db r. r))
          (λ found.
            decide_found-Risen digest operation_digest now key decision snapshot prior job found
              fits)))

  -- A job that is there has its task, so a new one is of another task.
  add_task-Fits :
      (now : ℕ) (snapshot : Snapshot) (key request_hash : String)
      → Ensures
          (Ready id g)
          (add_task (new_task snapshot))
          (λ _ db. Risen id g db × Fits id g (new_job now snapshot key request_hash))
  unfolding add_task
  add_task-Fits now snapshot key request_hash = record {
    holds = λ db (w, (row, found, risen)).
        elim (Bool-cases (is_some (get db.tasks snapshot.task_id))) [
          | inl taken ↦ rw taken tt
          | inr free ↦ rw free (
            (row, found, risen),
            λ same. absurd (
                cc (
                  free,
                  subst (λ k. is_some (get db.tasks k) ≡ true) (sym same) (w.owned id row found),
                )),
          )
        ];
  }

  submit_new-Risen :
      (digest : Snapshot → String) (now : ℕ) (snapshot : Snapshot) (key request_hash : String)
      (require_managed : Bool) (existing : Option WorkflowJobRow)
      → Ensures
          (Ready id g)
          (submit_new digest now snapshot key request_hash require_managed existing)
          (λ _. Risen id g)
  unfolding submit_new insert
  submit_new-Risen digest now snapshot key request_hash require_managed (some existing) =
      Ensures-if (str_eq existing.request_sha256 request_hash)
        (λ same. Ensures-pure (existing.task_id, false) (λ db p. p.1))
        (λ other. Ensures-raise idempotency_conflict)
  submit_new-Risen digest now snapshot key request_hash require_managed none =
      Ensures-bind (resolve-Ensures require_managed snapshot) (λ resolved.
        Ensures-bind (add_task-Fits now resolved key request_hash) (λ _. Ensures-assume (λ fits.
          Ensures-bind
            (Ensures-weaken
              (checkpoint-Risen id g digest (new_job now resolved key request_hash) resolved fits)
              (λ db r. r) (λ _ db (r, fits'). r))
            (λ _.
              Ensures-bind (event-Risen id g resolved.task_id "submitted" [])
                (λ _. Ensures-pure (resolved.task_id, true) (λ db r. r))))))

  enqueue-Risen :
      (digest : Snapshot → String) (now : ℕ) (snapshot : Snapshot) (key request_hash : String)
      (require_managed : Bool) (db : Db)
      → Ready id g db
      → Risen id g (enqueue digest now snapshot key request_hash require_managed db).1
  unfolding enqueue
  enqueue-Risen digest now snapshot key request_hash require_managed = transaction-Risen id g _ (
      Ensures-bind
        (Ensures-gets {Q = λ _. Ready id g} (λ (db : Db). find_key key db.jobs) (λ db p. p))
        (λ existing.
          submit_new-Risen digest now snapshot key request_hash require_managed existing))

  Step-Risen : (db db' : Db) → Step db db' → Ready id g db → Risen id g db'
  Step-Risen db _ (submits digest now snapshot key hash managed) p =
      enqueue-Risen digest now snapshot key hash managed db p
  Step-Risen db _ (claims now later owner lease_seconds task_id) p =
      claim-Risen id g now later owner lease_seconds task_id db p
  Step-Risen db _ (beats now later task_id owner generation lease_seconds) p =
      heartbeat-Risen id g now later task_id owner generation lease_seconds db p
  Step-Risen db _ (quarantines now task_id owner generation) p =
      quarantine-Risen id g now task_id owner generation db p
  Step-Risen db _ (begins now task_id owner generation active) p =
      begin-Risen id g now task_id owner generation active db p
  Step-Risen db _ (journals now task_id owner generation call_id kind starting usage elapsed) p =
      journal-Risen id g now task_id owner generation call_id kind starting usage elapsed db p
  Step-Risen db _
        (saves digest now task_id owner generation snapshot usage elapsed status code free) p =
      save-Risen id g digest now task_id owner generation snapshot usage elapsed status code db p
  Step-Risen db _ (controls task_id action expected) p =
      control-Risen id g task_id action expected db p
  Step-Risen db _ (reconciles v now task_id worker sequence) p =
      reconcile_calls-Risen id g v now task_id worker sequence db p
  Step-Risen db _ (gates source_digest operation_digest now run step owner generation) p =
      gate-Risen id g source_digest operation_digest now run step owner generation db p
  Step-Risen db _ (decides digest operation_digest now task_id n decision expected read prior) p =
      decide_read-Risen digest operation_digest now task_id n decision expected read prior db p
  Step-Risen db _ (requeues task_id sequence) p = queue_reconciled-Risen id g task_id sequence db p

-- Any operations after a database, in any order, by any workers and clients.
pub data Since (db : Db) : Db → Type 0 where
  at_once : (same : Db) → db ≡ same → Since db same
  then_step : (db' db'' : Db) → Since db db' → Step db' db'' → Since db db''

pub Since-Ready :
    (id : String) (g : ℕ) (db db' : Db) → Since db db' → Ready id g db → Ready id g db'
Since-Ready id g db _ (at_once same e) p = subst (Ready id g) e p
Since-Ready id g db _ (then_step db' db'' since step) p =
    let before = Since-Ready id g db db' since p in
    (Step-IsIntegral db' db'' step before.0, Step-Risen id g db' db'' step before)
