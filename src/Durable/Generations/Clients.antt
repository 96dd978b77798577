-- ===== src/Durable/Generations/Clients.antt =====
-- orchestration/durable_repository.py and orchestration/approvals.py: no call of a client, no recovery and no
-- approval lowers a generation.
use auto_scholar.Prelude.{
  ℕ, ◌+◌, String, not, ◌++◌, Option, none, some, [], ◌∷◌, inl, inr, Bool-cases,
}
use auto_scholar.Prelude.Table.{Table, get}
use auto_scholar.Prelude.Result.{Result, ok, err, modify}
use auto_scholar.Prelude.Ensures.{
  Ensures, Ensures-bind, Ensures-pure, Ensures-raise, Ensures-gets, Ensures-weaken, Ensures-if,
}
use auto_scholar.Plan.{PlanStep}
use auto_scholar.Snapshot.{text, number, Snapshot}
use auto_scholar.Durable.Rows.{Status, queued, WorkflowJobRow, WorkflowApprovalRow, Operation, Db}
use auto_scholar.Durable.Session.{
  Error, workflow_state_conflict, ExpectedWorkflowState, expect, is_expected,
}
use auto_scholar.Durable.Lease.{status_text}
use auto_scholar.Durable.Control.{
  Action, action_text, control, target, apply_target, check_expected, is_allowed,
}
use auto_scholar.Durable.Work.{find_approval}
use auto_scholar.Durable.Receipts.{Validators}
use auto_scholar.Durable.Recovery.{
  settles, settle_calls, call_payload, authorize_recovery, reconcile_held, reconcile_calls,
  is_reconciled, queue_held, queue_reconciled,
}
use auto_scholar.Durable.Approvals.{
  operation, requested, add_request, request, has_expired, permit, ask, gate_held, gate_operation,
  gate_if, gate,
}
use auto_scholar.Durable.Integrity.Guards.{fence-Ensures}
use auto_scholar.Durable.Generations.{
  Risen, Fits, Ready, write_job-Risen, set_status-Risen, event-Risen, refuse-Risen, locked-Risen,
  fenced-Risen,
}

module _ (id : String) (g : ℕ) where
  pub expect-Risen :
      (row : WorkflowJobRow) (expected : ExpectedWorkflowState)
      → Ensures (Risen id g) (expect row expected) (λ _. Risen id g)
  unfolding expect
  expect-Risen row expected = record {
    holds = λ db r. elim (Bool-cases (is_expected row expected db)) [
      | inl fits ↦ rw fits r
      | inr differs ↦ rw differs tt
    ];
  }

  check_expected-Risen :
      (row : WorkflowJobRow) (action : Action) (expected : Option ExpectedWorkflowState)
      → Ensures (Risen id g) (check_expected row action expected) (λ _. Risen id g)
  unfolding check_expected
  check_expected-Risen row action none = Ensures-pure tt (λ db r. r)
  check_expected-Risen row action (some expected) =
      Ensures-bind (expect-Risen row expected)
        (λ _. refuse-Risen id g (not (is_allowed action row.status)) workflow_state_conflict)

  apply_target-Risen :
      (row : WorkflowJobRow) (action : Action) (out : Result Error (Option Status))
      → Fits id g row
      → Ensures (Risen id g) (apply_target row action out) (λ _. Risen id g)
  unfolding apply_target
  apply_target-Risen row action (err e) fits = Ensures-raise e
  apply_target-Risen row action (ok none) fits = Ensures-pure row.status (λ db r. r)
  apply_target-Risen row action (ok (some status)) fits =
      Ensures-bind (set_status-Risen id g row status fits) (λ _.
        Ensures-bind
          (event-Risen id g row.task_id (action_text action)
            (("status", text (status_text status)) ∷ []))
          (λ _. Ensures-pure status (λ db r. r)))

  pub control-Risen :
      (task_id : String) (action : Action) (expected : Option ExpectedWorkflowState) (db : Db)
      → Ready id g db
      → Risen id g (control task_id action expected db).1
  unfolding control
  control-Risen task_id action expected = locked-Risen id g task_id _ (λ row fits.
      Ensures-bind (check_expected-Risen row action expected)
        (λ _. apply_target-Risen row action (target action row.status) fits))

  authorize-Risen :
      (row : WorkflowJobRow) (now : ℕ) (worker : Option (String × ℕ)) (sequence : Option ℕ)
      → Ensures (Risen id g) (authorize_recovery row now worker sequence) (λ _. Risen id g)
  unfolding authorize_recovery
  authorize-Risen row now (some (owner, generation)) sequence =
      Ensures-weaken (fence-Ensures {P = Risen id g} row owner generation now) (λ db r. r)
        (λ _ db (r, held). r)
  authorize-Risen row now none sequence = refuse-Risen id g _ workflow_state_conflict

  settle_calls-Risen :
      (v : Validators) (task_id : String) (pending : Table String)
      → Ensures (Risen id g) (settle_calls v task_id pending) (λ _. Risen id g)
  unfolding settle_calls
  settle_calls-Risen v task_id [] = Ensures-pure [] (λ db r. r)
  settle_calls-Risen v task_id ((operation_id, kind) ∷ pending) =
      Ensures-bind
        (Ensures-gets {Q = λ _. Risen id g} (λ (db : Db). get db.calls operation_id) (λ db r. r))
        (λ call.
          Ensures-bind
            (Ensures-gets {Q = λ _. Risen id g}
              (λ (db : Db). settles v db.operations task_id kind call) (λ db r. r))
            (λ settled.
              Ensures-if settled
                (λ _.
                  Ensures-bind
                    (event-Risen id g task_id "call_reconciled" (call_payload operation_id call))
                    (λ _. settle_calls-Risen v task_id pending))
                (λ _.
                  Ensures-bind (settle_calls-Risen v task_id pending)
                    (λ left. Ensures-pure ((operation_id, kind) ∷ left) (λ db r. r)))))

  pub reconcile_calls-Risen :
      (v : Validators) (now : ℕ) (task_id : String) (worker : Option (String × ℕ))
      (sequence : Option ℕ) (db : Db)
      → Ready id g db
      → Risen id g (reconcile_calls v now task_id worker sequence db).1
  unfolding reconcile_calls
  reconcile_calls-Risen v now task_id worker sequence =
      locked-Risen id g task_id (reconcile_held v now task_id worker sequence) (λ row fits.
        Ensures-bind (authorize-Risen row now worker sequence) (λ _.
          Ensures-bind (settle_calls-Risen v task_id row.pending_calls) (λ left.
            Ensures-bind (write_job-Risen id g (record row { pending_calls = left }) fits)
              (λ _. Ensures-pure left (λ db r. r)))))

  pub queue_reconciled-Risen :
      (task_id : String) (sequence : ℕ) (db : Db)
      → Ready id g db
      → Risen id g (queue_reconciled task_id sequence db).1
  unfolding queue_reconciled
  queue_reconciled-Risen task_id sequence =
      locked-Risen id g task_id (queue_held task_id sequence) (λ row fits.
        Ensures-bind (refuse-Risen id g (not (is_reconciled row sequence)) workflow_state_conflict)
          (λ _.
            Ensures-bind (set_status-Risen id g (record row { error_code = none }) queued fits)
              (λ _.
                Ensures-bind
                  (event-Risen id g task_id "recovery_verified"
                    (("checkpoint_sequence", number sequence) ∷ []))
                  (λ _. Ensures-pure queued (λ db r. r)))))

  added-Risen :
      (row : WorkflowApprovalRow)
      → Ensures {E = Error}
          (Risen id g)
          (modify
            (λ (db : Db). record db { approvals = db.approvals ++ row ∷ []; drawn = db.drawn + 1 }))
          (λ _. Risen id g)
  added-Risen row = record { holds = λ db r. r }

  request-Risen :
      (now : ℕ) (payload : Operation) (hash : String) (found : Option WorkflowApprovalRow)
      → Ensures (Risen id g) (request now payload hash found) (λ _. Risen id g)
  unfolding request add_request
  request-Risen now payload hash (some row) = Ensures-pure row (λ db r. r)
  request-Risen now payload hash none =
      Ensures-bind
        (Ensures-gets {Q = λ _. Risen id g} (λ (db : Db). requested db.drawn now payload hash)
          (λ db r. r))
        (λ row. Ensures-bind (added-Risen row) (λ _.
          Ensures-bind
            (event-Risen id g payload.task_id "approval_requested"
              (("approval_id", number row.id) ∷ ("operation_sha256", text hash) ∷ []))
            (λ _. Ensures-pure row (λ db r. r))))

  permit-Risen :
      (now : ℕ) (row : WorkflowApprovalRow)
      → Ensures (Risen id g) (permit now row) (λ _. Risen id g)
  unfolding permit
  permit-Risen now row = record {
    holds = λ db r. elim (Bool-cases (has_expired now row)) [
      | inl late ↦ rw late r
      | inr fresh ↦ rw fresh r
    ];
  }

  gate_if-Risen :
      (operation_digest : Operation → String) (now : ℕ) (owner : String) (generation : ℕ)
      (payload : Option Operation) (db : Db)
      → Ready id g db
      → Risen id g (gate_if operation_digest now owner generation payload db).1
  unfolding gate_operation ask
  gate_if-Risen operation_digest now owner generation none db p = p.1
  gate_if-Risen operation_digest now owner generation (some payload) db p =
      fenced-Risen id g now payload.task_id owner generation
        (λ _. gate_held operation_digest now payload)
        (λ row fits.
          Ensures-bind
            (Ensures-gets {Q = λ _. Risen id g}
              (λ (db : Db). find_approval payload.task_id (operation_digest payload) db.approvals)
              (λ db r. r))
            (λ found.
              Ensures-bind (request-Risen now payload (operation_digest payload) found)
                (λ row. permit-Risen now row)))
        db p

  pub gate-Risen :
      (source_digest : Table String → String) (operation_digest : Operation → String) (now : ℕ)
      (run : Snapshot) (step : PlanStep) (owner : String) (generation : ℕ) (db : Db)
      → Ready id g db
      → Risen id g (gate source_digest operation_digest now run step owner generation db).1
  unfolding gate
  gate-Risen source_digest operation_digest now run step owner generation =
      gate_if-Risen operation_digest now owner generation (operation source_digest run step)
