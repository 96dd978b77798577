-- ===== src/Durable/Integrity/Gates.antt =====
-- orchestration/approvals.py: `gate` keeps the database integral.
use auto_scholar.Prelude.{
  ℕ, ◌+◌, String, List, Option, none, some, [], ◌∷◌, ◌++◌, inl, inr, Bool-cases,
}
use auto_scholar.Prelude.Table.{Table}
use auto_scholar.Prelude.Result.{modify}
use auto_scholar.Prelude.Ensures.{
  Ensures, Keeps, Ensures-bind, Ensures-pure, Ensures-gets, Ensures-weaken,
}
use auto_scholar.Plan.{PlanStep}
use auto_scholar.Snapshot.{Snapshot, text, number}
use auto_scholar.Durable.Rows.{WorkflowJobRow, WorkflowApprovalRow, Operation, expired, Db}
use auto_scholar.Durable.Session.{Error}
use auto_scholar.Durable.Work.{find_approval, mark_approval}
use auto_scholar.Durable.Approvals.{
  operation, requested, add_request, request, has_expired, permit, ask, gate_held, gate_operation,
  gate_if, gate,
}
use auto_scholar.Durable.Integrity.{IsIntegral, IsWritable}
use auto_scholar.Durable.Integrity.Events.{event-IsWritable}
use auto_scholar.Durable.Integrity.Guards.{fenced_update}

-- The approvals and the supply of identifiers are no part of what is integral.
pub with_approvals-IsWritable :
    (row : WorkflowJobRow) (db : Db) (approvals : List WorkflowApprovalRow) (drawn : ℕ)
    → IsWritable row db
    → IsWritable row (record db { approvals = approvals; drawn = drawn })
with_approvals-IsWritable row db approvals drawn w = record {
  integral = record {
    events = w.integral.events;
    checkpoints = w.integral.checkpoints;
    keyed = w.integral.keyed;
    owned = w.integral.owned;
    unique = w.integral.unique;
    sound = w.integral.sound;
  };
  numbered = w.numbered;
  has_task = w.has_task;
}

added-IsWritable :
    (row : WorkflowJobRow) (approval : WorkflowApprovalRow)
    → Ensures {E = Error}
        (IsWritable row)
        (modify (λ (db : Db). record db {
          approvals = db.approvals ++ approval ∷ [];
          drawn = db.drawn + 1;
        }))
        (λ _. IsWritable row)
added-IsWritable row approval = record {
  holds = λ db w. with_approvals-IsWritable row db (db.approvals ++ approval ∷ []) (db.drawn + 1) w;
}

add_request-IsWritable :
    (row : WorkflowJobRow) (payload : Operation) (hash : String) (approval : WorkflowApprovalRow)
    → Ensures (IsWritable row) (add_request payload hash approval) (λ _. IsWritable row)
unfolding add_request
add_request-IsWritable row payload hash approval =
    Ensures-bind (added-IsWritable row approval) (λ _.
      Ensures-bind
        (event-IsWritable row payload.task_id "approval_requested"
          (("approval_id", number approval.id) ∷ ("operation_sha256", text hash) ∷ []))
        (λ _. Ensures-pure approval (λ db w. w)))

request-IsWritable :
    (row : WorkflowJobRow) (now : ℕ) (payload : Operation) (hash : String)
    (found : Option WorkflowApprovalRow)
    → Ensures (IsWritable row) (request now payload hash found) (λ _. IsWritable row)
unfolding request
request-IsWritable row now payload hash (some approval) = Ensures-pure approval (λ db w. w)
request-IsWritable row now payload hash none =
    Ensures-bind
      (Ensures-gets {Q = λ _. IsWritable row} (λ (db : Db). requested db.drawn now payload hash)
        (λ db w. w))
      (λ approval. add_request-IsWritable row payload hash approval)

permit-IsWritable :
    (row : WorkflowJobRow) (now : ℕ) (approval : WorkflowApprovalRow)
    → Ensures (IsWritable row) (permit now approval) (λ _. IsWritable row)
unfolding permit
permit-IsWritable row now approval = record {
  holds = λ db w. elim (Bool-cases (has_expired now approval)) [
    | inl late ↦ rw late (
        with_approvals-IsWritable row db (mark_approval approval.id expired db.approvals) db.drawn
          w)
    | inr fresh ↦ rw fresh w
  ];
}

ask-IsWritable :
    (row : WorkflowJobRow) (now : ℕ) (payload : Operation) (hash : String)
    (found : Option WorkflowApprovalRow)
    → Ensures (IsWritable row) (ask now payload hash found) (λ _. IsWritable row)
unfolding ask
ask-IsWritable row now payload hash found =
    Ensures-bind (request-IsWritable row now payload hash found)
      (λ approval. permit-IsWritable row now approval)

gate_operation-IsIntegral :
    (operation_digest : Operation → String) (now : ℕ) (payload : Operation) (owner : String)
    (generation : ℕ)
    → Keeps IsIntegral (gate_operation operation_digest now payload owner generation)
unfolding gate_operation
gate_operation-IsIntegral operation_digest now payload owner generation =
    fenced_update now payload.task_id owner generation (λ _. gate_held operation_digest now payload)
      (λ row s e.
        Ensures-bind
          (Ensures-gets {Q = λ _. IsWritable row}
            (λ (db : Db). find_approval payload.task_id (operation_digest payload) db.approvals)
            (λ db w. w))
          (λ found.
            Ensures-weaken (ask-IsWritable row now payload (operation_digest payload) found)
              (λ db w. w) (λ _ db w. w.integral)))

gate_if-IsIntegral :
    (operation_digest : Operation → String) (now : ℕ) (owner : String) (generation : ℕ)
    (payload : Option Operation)
    → Keeps IsIntegral (gate_if operation_digest now owner generation payload)
gate_if-IsIntegral operation_digest now owner generation none db w = w
gate_if-IsIntegral operation_digest now owner generation (some payload) db w =
    gate_operation-IsIntegral operation_digest now payload owner generation db w

pub gate-IsIntegral :
    (source_digest : Table String → String) (operation_digest : Operation → String) (now : ℕ)
    (run : Snapshot) (step : PlanStep) (owner : String) (generation : ℕ)
    → Keeps IsIntegral (gate source_digest operation_digest now run step owner generation)
unfolding gate
gate-IsIntegral source_digest operation_digest now run step owner generation =
    gate_if-IsIntegral operation_digest now owner generation (operation source_digest run step)
