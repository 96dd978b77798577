-- ===== src/Durable/Approvals/Users.antt =====
-- orchestration/durable_repository.py, `begin`, and orchestration/approvals.py, `gate` and `decide`: they leave an
-- approval closed that is closed.
use auto_scholar.Prelude.{
  ℕ, ◌+◌, String, ◌≡◌, refl, false, not, ◌&&◌, ◌||◌, ◌==◌, leb, str_eq, Option, none, some, List,
  [], ◌∷◌, ◌++◌, Bool, is_empty, any, Bool-cases, Option-cases, inl, inr,
}
use auto_scholar.Prelude.Table.{Table, get}
use auto_scholar.Prelude.Result.{Result, ok, err, modify, refuse_if}
use auto_scholar.Prelude.Ensures.{
  Ensures, Keeps, After-at, Ensures-bind, Ensures-pure, Ensures-raise, Ensures-gets,
  Ensures-refuse_if, Ensures-weaken, Ensures-if, Keeps-transaction,
}
use auto_scholar.Plan.{PlanStep, ExperimentSpecification, TaskPlan}
use auto_scholar.Snapshot.{Value, text, number, Snapshot}
use auto_scholar.Durable.Rows.{
  Status, WorkflowJobRow, WorkflowApprovalRow, ApprovalStatus, consumed, expired, Operation,
  TaskPlanRow, Db,
}
use auto_scholar.Durable.Session.{
  Error, operation_uncertain, approval_required, assertion_failed, ExpectedWorkflowState, event,
  locked, fence, expect, is_expected, set_status, checkpoint, write_job,
}
use auto_scholar.Durable.Work.{
  begin, begin_held, start_unit, check_approval, use_approval, mark_approval, find_approval,
  is_approved, is_running, operation_hash,
}
use auto_scholar.Durable.Approvals.{
  is_open, modified, operation, requested, add_request, request, has_expired, permit, ask,
  gate_held, gate_operation, gate_if, gate,
}
use auto_scholar.Durable.Approvals.Decisions.{
  DecisionAction, approve, reject, modify_operation, add_plan, save_modified, apply_modification,
  expect_if,
}
use auto_scholar.Durable.Integrity.Events.{event_missing, event_found}
use auto_scholar.Durable.Integrity.Guards.{locked_missing, locked_found, fence-Ensures}
use auto_scholar.Durable.Integrity.Tasks.{set_status_found, set_status_missing}
use auto_scholar.Durable.Approvals.Closed.{IsClosed, mark-IsClosed, append-IsClosed}

module _ (P : List WorkflowApprovalRow → Type 0) where
  -- What holds of the approvals holds after code that does not write them.
  abbrev pub On : Db → Type 0
  On db = P db.approvals

  pub event-On :
      (id kind : String) (payload : Table Value) → Ensures On (event id kind payload) (λ _. On)
  event-On id kind payload = record {
    holds = λ db p. elim (Option-cases (get db.tasks id)) [
      | inl missing ↦ After-at (λ _. On) (event_missing id kind payload db missing) tt
      | inr (task, found) ↦ After-at (λ _. On) (event_found id kind payload db task found) p
    ];
  }

  pub locked-On : (id : String) → Ensures On (locked id) (λ _. On)
  locked-On id = record {
    holds = λ db p. elim (Option-cases (get db.jobs id)) [
      | inl missing ↦ After-at (λ _. On) (locked_missing id db missing) tt
      | inr (row, found) ↦ After-at (λ _. On) (locked_found id db row found) p
    ];
  }

  pub set_status-On :
      (row : WorkflowJobRow) (status : Status) → Ensures On (set_status row status) (λ _. On)
  set_status-On row status = record {
    holds = λ db p. elim (Option-cases (get db.tasks row.task_id)) [
      | inl missing ↦ After-at (λ _. On) (set_status_missing row status db missing) tt
      | inr (task, found) ↦ After-at (λ _. On) (set_status_found row status db task found) p
    ];
  }

  fence-On :
      (row : WorkflowJobRow) (owner : String) (generation now : ℕ)
      → Ensures On (fence row owner generation now) (λ _. On)
  fence-On row owner generation now =
      Ensures-weaken (fence-Ensures {P = On} row owner generation now) (λ db p. p)
        (λ _ db (p, held). p)

  write_job-On : (row : WorkflowJobRow) → Ensures On (write_job row) (λ _. On)
  unfolding write_job
  write_job-On row = record { holds = λ db p. p }

  checkpoint-On :
      (digest : Snapshot → String) (row : WorkflowJobRow) (snapshot : Snapshot)
      → Ensures On (checkpoint digest row snapshot) (λ _. On)
  unfolding checkpoint
  checkpoint-On digest row snapshot = record { holds = λ db p. p }

  pub refuse-On : (test : Bool) (e : Error) → Ensures On (refuse_if test e) (λ _. On)
  refuse-On test e = Ensures-weaken (Ensures-refuse_if test e) (λ db p. p) (λ _ db (p, h). p)

  pub expect_if-On :
      (row : WorkflowJobRow) (expected : Option ExpectedWorkflowState)
      → Ensures On (expect_if row expected) (λ _. On)
  unfolding expect
  expect_if-On row none = Ensures-pure tt (λ db p. p)
  expect_if-On row (some expected) = record {
    holds = λ db p. elim (Bool-cases (is_expected row expected db)) [
      | inl fits ↦ rw fits p
      | inr differs ↦ rw differs tt
    ];
  }

  add_plan-On :
      (snapshot : Snapshot) (plan : Option TaskPlan) → Ensures On (add_plan snapshot plan) (λ _. On)
  unfolding add_plan
  add_plan-On snapshot none = record { holds = λ db p. tt }
  add_plan-On snapshot (some plan) = record {
    holds = λ db p.
        elim (Bool-cases (
          any
            (λ (other : TaskPlanRow).
              str_eq other.task_id snapshot.task_id && other.version == snapshot.version)
            db.plans)) [ inl taken ↦ rw taken tt | inr free ↦ rw free p ];
  }

  save_modified-On :
      (digest : Snapshot → String) (job : WorkflowJobRow) (out : Result Error Snapshot)
      → Ensures On (save_modified digest job out) (λ _. On)
  unfolding save_modified
  save_modified-On digest job (err e) = Ensures-raise e
  save_modified-On digest job (ok snapshot) =
      Ensures-bind (add_plan-On snapshot snapshot.plan) (λ _. checkpoint-On digest job snapshot)

  pub apply_modification-On :
      (digest : Snapshot → String) (job : WorkflowJobRow) (snapshot : Snapshot)
      (action : DecisionAction) (specification : Option ExperimentSpecification)
      → Ensures On (apply_modification digest job snapshot action specification) (λ _. On)
  unfolding apply_modification
  apply_modification-On digest job snapshot modify_operation none = Ensures-raise assertion_failed
  apply_modification-On digest job snapshot modify_operation (some specification) =
      save_modified-On digest job (modified snapshot specification)
  apply_modification-On digest job snapshot approve specification = Ensures-pure job (λ db p. p)
  apply_modification-On digest job snapshot reject specification = Ensures-pure job (λ db p. p)

module _ (task_id hash : String) where
  abbrev Closed : List WorkflowApprovalRow → Type 0
  Closed = IsClosed task_id hash

  mark-Closed :
      (id : ℕ) (status : ApprovalStatus)
      → is_open status ≡ false
      → Ensures {E = Error}
          (On Closed)
          (modify (λ (db : Db). record db { approvals = mark_approval id status db.approvals }))
          (λ _. On Closed)
  mark-Closed id status c = record {
    holds = λ db p. mark-IsClosed task_id hash id status db.approvals c p;
  }

  use_approval-Closed :
      (now : ℕ) (key : String) (found : Option WorkflowApprovalRow)
      → Ensures (On Closed) (use_approval now key found) (λ _. On Closed)
  unfolding use_approval
  use_approval-Closed now key none = Ensures-raise approval_required
  use_approval-Closed now key (some approval) =
      Ensures-bind
        (refuse-On Closed (not (is_approved approval.status) || leb approval.expires_at now)
          approval_required)
        (λ _.
          Ensures-bind (mark-Closed approval.id consumed refl) (λ _.
            event-On Closed key "approval_consumed" (("approval_id", number approval.id) ∷ [])))

  check_approval-Closed :
      (now : ℕ) (key : String) (named : Option String)
      → Ensures (On Closed) (check_approval now key named) (λ _. On Closed)
  unfolding check_approval
  check_approval-Closed now key none = Ensures-pure tt (λ db p. p)
  check_approval-Closed now key (some operation_sha256) =
      Ensures-bind
        (Ensures-gets {Q = λ _. On Closed}
          (λ (db : Db). find_approval key operation_sha256 db.approvals) (λ db p. p))
        (λ found. use_approval-Closed now key found)

  start_unit-Closed :
      (now : ℕ) (active : Table Value) (row : WorkflowJobRow)
      → Ensures (On Closed) (start_unit now active row) (λ _. On Closed)
  unfolding start_unit
  start_unit-Closed now active row =
      Ensures-if (is_running row.status)
        (λ _. Ensures-bind (check_approval-Closed now row.task_id (operation_hash active)) (λ _.
          Ensures-bind (write_job-On Closed (record row { active = active }))
            (λ _. event-On Closed row.task_id "unit_started" active)))
        (λ _. Ensures-pure tt (λ db p. p))

  begin_held-Closed :
      (now : ℕ) (active : Table Value) (row : WorkflowJobRow)
      → Ensures (On Closed) (begin_held now active row) (λ _. On Closed)
  begin_held-Closed now active row =
      Ensures-bind
        (refuse-On Closed (not (is_empty row.active) || not (is_empty row.pending_calls))
          operation_uncertain)
        (λ _.
          Ensures-bind (start_unit-Closed now active row)
            (λ _. Ensures-pure row.status (λ db p. p)))

  pub begin-Closed :
      (now : ℕ) (key owner : String) (generation : ℕ) (active : Table Value)
      → Keeps (On Closed) (begin now key owner generation active)
  unfolding begin
  begin-Closed now key owner generation active = Keeps-transaction _ (
      Ensures-bind (locked-On Closed key) (λ row.
        Ensures-bind (fence-On Closed row owner generation now)
          (λ _. begin_held-Closed now active row)))

  added-Closed :
      (row : WorkflowApprovalRow)
      → Ensures {E = Error}
          (On Closed)
          (modify
            (λ (db : Db). record db { approvals = db.approvals ++ row ∷ []; drawn = db.drawn + 1 }))
          (λ _. On Closed)
  added-Closed row = record {
    holds = λ db p. append-IsClosed task_id hash db.approvals (row ∷ []) p;
  }

  add_request-Closed :
      (payload : Operation) (name : String) (row : WorkflowApprovalRow)
      → Ensures (On Closed) (add_request payload name row) (λ _. On Closed)
  unfolding add_request
  add_request-Closed payload name row = Ensures-bind (added-Closed row) (λ _.
      Ensures-bind
        (event-On Closed payload.task_id "approval_requested"
          (("approval_id", number row.id) ∷ ("operation_sha256", text name) ∷ []))
        (λ _. Ensures-pure row (λ db p. p)))

  request-Closed :
      (now : ℕ) (payload : Operation) (name : String) (found : Option WorkflowApprovalRow)
      → Ensures (On Closed) (request now payload name found) (λ _. On Closed)
  unfolding request
  request-Closed now payload name (some row) = Ensures-pure row (λ db p. p)
  request-Closed now payload name none =
      Ensures-bind
        (Ensures-gets {Q = λ _. On Closed} (λ (db : Db). requested db.drawn now payload name)
          (λ db p. p))
        (λ row. add_request-Closed payload name row)

  permit-Closed :
      (now : ℕ) (row : WorkflowApprovalRow) → Ensures (On Closed) (permit now row) (λ _. On Closed)
  unfolding permit
  permit-Closed now row = record {
    holds = λ db p. elim (Bool-cases (has_expired now row)) [
      | inl late ↦ rw late (mark-IsClosed task_id hash row.id expired db.approvals refl p)
      | inr fresh ↦ rw fresh p
    ];
  }

  gate_held-Closed :
      (operation_digest : Operation → String) (now : ℕ) (payload : Operation)
      → Ensures (On Closed) (gate_held operation_digest now payload) (λ _. On Closed)
  unfolding ask
  gate_held-Closed operation_digest now payload =
      let name = operation_digest payload in
      Ensures-bind
        (Ensures-gets {Q = λ _. On Closed}
          (λ (db : Db). find_approval payload.task_id name db.approvals) (λ db p. p))
        (λ found.
          Ensures-bind (request-Closed now payload name found) (λ row. permit-Closed now row))

  gate_if-Closed :
      (operation_digest : Operation → String) (now : ℕ) (owner : String) (generation : ℕ)
      (payload : Option Operation)
      → Keeps (On Closed) (gate_if operation_digest now owner generation payload)
  unfolding gate_operation
  gate_if-Closed operation_digest now owner generation none db p = p
  gate_if-Closed operation_digest now owner generation (some payload) db p =
      Keeps-transaction _
        (Ensures-bind (locked-On Closed payload.task_id) (λ job.
          Ensures-bind (fence-On Closed job owner generation now)
            (λ _. gate_held-Closed operation_digest now payload)))
        db p

  pub gate-Closed :
      (source_digest : Table String → String) (operation_digest : Operation → String) (now : ℕ)
      (run : Snapshot) (step : PlanStep) (owner : String) (generation : ℕ)
      → Keeps (On Closed) (gate source_digest operation_digest now run step owner generation)
  unfolding gate
  gate-Closed source_digest operation_digest now run step owner generation =
      gate_if-Closed operation_digest now owner generation (operation source_digest run step)
