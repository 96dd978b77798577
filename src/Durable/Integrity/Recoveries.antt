-- ===== src/Durable/Integrity/Recoveries.antt =====
-- orchestration/durable_repository.py: `reconcile_calls` and `queue_reconciled` keep the database integral.
use auto_scholar.Prelude.{
  ℕ, ◌≤◌, String, ◌≡◌, refl, false, not, Option, none, some, [], ◌∷◌, arith, is_some, length,
}
use auto_scholar.Prelude.Table.{Table, get}
use auto_scholar.Prelude.Ensures.{
  Ensures, Keeps, Ensures-bind, Ensures-assume, Ensures-weaken, Ensures-pure, Ensures-gets,
  Ensures-if, Ensures-refuse_if,
}
use auto_scholar.Snapshot.{number}
use auto_scholar.Durable.Rows.{queued, WorkflowJobRow, Db}
use auto_scholar.Durable.Session.{workflow_state_conflict}
use auto_scholar.Durable.Receipts.{Validators}
use auto_scholar.Durable.Recovery.{
  settles, settle_calls, call_payload, authorize_recovery, reconcile_held, reconcile_calls,
  is_reconciled, queue_held, queue_reconciled,
}
use auto_scholar.Durable.Integrity.{IsSound, IsIntegral, IsWritable}
use auto_scholar.Durable.Integrity.Guards.{fence-Ensures, locked_update, change}
use auto_scholar.Durable.Integrity.Events.{event-IsWritable}
use auto_scholar.Durable.Integrity.Jobs.{write_job-IsWritable}
use auto_scholar.Durable.Integrity.Tasks.{set_status-IsWritable}

authorize_recovery-IsWritable :
    (row : WorkflowJobRow) (now : ℕ) (worker : Option (String × ℕ)) (sequence : Option ℕ)
    → Ensures (IsWritable row) (authorize_recovery row now worker sequence) (λ _. IsWritable row)
unfolding authorize_recovery
authorize_recovery-IsWritable row now (some (owner, generation)) sequence =
    Ensures-weaken (fence-Ensures row owner generation now) (λ db w. w) (λ _ db (w, held). w)
authorize_recovery-IsWritable row now none sequence =
    Ensures-weaken (Ensures-refuse_if _ workflow_state_conflict) (λ db w. w) (λ _ db (w, passed). w)

settle_calls-IsWritable :
    (row : WorkflowJobRow) (v : Validators) (task_id : String) (pending : Table String)
    → Ensures
        (IsWritable row)
        (settle_calls v task_id pending)
        (λ left db. IsWritable row db × (length left ≤ length pending))
unfolding settle_calls
settle_calls-IsWritable row v task_id [] = Ensures-pure [] (λ db w. (w, omega arith))
settle_calls-IsWritable row v task_id ((operation_id, kind) ∷ pending) =
    Ensures-bind
      (Ensures-gets {Q = λ _. IsWritable row} (λ (db : Db). get db.calls operation_id) (λ db w. w))
      (λ call.
        Ensures-bind
          (Ensures-gets {Q = λ _. IsWritable row}
            (λ (db : Db). settles v db.operations task_id kind call) (λ db w. w))
          (λ settled.
            Ensures-if settled
              (λ _.
                Ensures-bind
                  (event-IsWritable row task_id "call_reconciled" (call_payload operation_id call))
                  (λ _.
                    Ensures-weaken (settle_calls-IsWritable row v task_id pending) (λ db w. w)
                      (λ left db (w, fewer). (w, omega (arith, fewer)))))
              (λ _. Ensures-bind (settle_calls-IsWritable row v task_id pending) (λ left.
                Ensures-pure ((operation_id, kind) ∷ left)
                  (λ db (w, fewer). (w, omega (arith, fewer)))))))

reconcile_held-IsIntegral :
    (v : Validators) (now : ℕ) (task_id : String) (worker : Option (String × ℕ))
    (sequence : Option ℕ) (row : WorkflowJobRow)
    → IsSound row
    → Ensures (IsWritable row) (reconcile_held v now task_id worker sequence row) (λ _. IsIntegral)
reconcile_held-IsIntegral v now task_id worker sequence row s =
    Ensures-bind (authorize_recovery-IsWritable row now worker sequence) (λ _.
      Ensures-bind (settle_calls-IsWritable row v task_id row.pending_calls) (λ left.
        Ensures-assume (λ fewer.
          change row (record row { pending_calls = left }) refl refl
            (Ensures-bind
              (write_job-IsWritable (record row { pending_calls = left })
                (record { leased = s.leased; single = omega (arith, fewer, s.single) }))
              (λ _. Ensures-pure left (λ db w. w.integral))))))

pub reconcile_calls-IsIntegral :
    (v : Validators) (now : ℕ) (task_id : String) (worker : Option (String × ℕ))
    (sequence : Option ℕ)
    → Keeps IsIntegral (reconcile_calls v now task_id worker sequence)
unfolding reconcile_calls
reconcile_calls-IsIntegral v now task_id worker sequence =
    locked_update task_id (reconcile_held v now task_id worker sequence)
      (λ row s e. reconcile_held-IsIntegral v now task_id worker sequence row s)

no_owner :
    (row : WorkflowJobRow) (sequence : ℕ)
    → not (is_reconciled row sequence) ≡ false
    → is_some row.owner ≡ false
no_owner row sequence h = ground arith

queue_held-IsIntegral :
    (task_id : String) (sequence : ℕ) (row : WorkflowJobRow)
    → IsSound row
    → Ensures (IsWritable row) (queue_held task_id sequence row) (λ _. IsIntegral)
queue_held-IsIntegral task_id sequence row s =
    Ensures-bind (Ensures-refuse_if (not (is_reconciled row sequence)) workflow_state_conflict)
      (λ _. Ensures-assume (λ free.
        change row (record row { error_code = none }) refl refl
          (Ensures-bind
            (set_status-IsWritable (record row { error_code = none }) queued
              (record { leased = no_owner row sequence free; single = s.single }))
            (λ row'.
              Ensures-bind
                (Ensures-weaken
                  (event-IsWritable row' task_id "recovery_verified"
                    (("checkpoint_sequence", number sequence) ∷ []))
                  (λ db (w, same). w) (λ _ db w. w))
                (λ _. Ensures-pure queued (λ db w. w.integral))))))

pub queue_reconciled-IsIntegral :
    (task_id : String) (sequence : ℕ) → Keeps IsIntegral (queue_reconciled task_id sequence)
unfolding queue_reconciled
queue_reconciled-IsIntegral task_id sequence =
    locked_update task_id (queue_held task_id sequence)
      (λ row s e. queue_held-IsIntegral task_id sequence row s)
