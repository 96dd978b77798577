-- ===== src/Durable/Integrity/Decisions.antt =====
-- orchestration/approvals.py: `decide` keeps the database integral.
use auto_scholar.Prelude.{
  ℕ, ◌+◌, String, ◌≡◌, refl, true, false, not, ◌&&◌, ◌||◌, ◌==◌, str_eq, Option, none, some, List,
  any, arith, inl, inr, Bool-cases,
}
use auto_scholar.Prelude.Result.{Result, ok, err, modify}
use auto_scholar.Prelude.Ensures.{
  Ensures, Keeps, Ensures-bind, Ensures-pure, Ensures-raise, Ensures-gets, Ensures-weaken,
  Ensures-refuse_if, Ensures-assume, Ensures-if,
}
use auto_scholar.Plan.{ExperimentSpecification, TaskPlan}
use auto_scholar.Snapshot.{Snapshot}
use auto_scholar.Durable.Rows.{
  Status, is_leased, WorkflowJobRow, WorkflowApprovalRow, Operation, TaskPlanRow, Db,
}
use auto_scholar.Durable.Session.{
  Error, approval_stale, workflow_state_conflict, assertion_failed, approval_not_found,
  ExpectedWorkflowState,
}
use auto_scholar.Durable.Approvals.{modified}
use auto_scholar.Durable.Approvals.Decisions.{
  DecisionAction, approve, reject, modify_operation, ApprovalDecision, decided_job, decide_approval,
  record_decision, decision_payload, is_awaiting, lacks_parameters, check_row, refuse_error,
  add_plan, save_modified, apply_modification, decide_new, decide_row, decide_found, decide_read,
  is_repeated, expect_if, find_row,
}
use auto_scholar.Durable.Integrity.{IsSound, IsIntegral, IsWritable}
use auto_scholar.Durable.Integrity.Tasks.{set_status-IsWritable}
use auto_scholar.Durable.Integrity.Jobs.{checkpoint-IsWritable}
use auto_scholar.Durable.Integrity.Guards.{locked_update, conclude}
use auto_scholar.Durable.Integrity.Controls.{expect-IsWritable}
use auto_scholar.Durable.Integrity.Gates.{with_approvals-IsWritable}

-- A new plan is no part of what is integral.
with_plans-IsWritable :
    (row : WorkflowJobRow) (db : Db) (plans : List TaskPlanRow) (drawn : ℕ)
    → IsWritable row db
    → IsWritable row (record db { plans = plans; drawn = drawn })
with_plans-IsWritable row db plans drawn w = record {
  integral = record {
    events = w.integral.events;
    checkpoints = w.integral.checkpoints;
    keyed = w.integral.keyed;
    owned = w.integral.owned;
    unique = w.integral.unique;
    sound = w.integral.sound;
  };
  numbered = w.numbered;
  has_task = w.has_task;
}

add_plan-IsWritable :
    (row : WorkflowJobRow) (snapshot : Snapshot) (plan : Option TaskPlan)
    → Ensures (IsWritable row) (add_plan snapshot plan) (λ _. IsWritable row)
unfolding add_plan
add_plan-IsWritable row snapshot none = record { holds = λ db w. tt }
add_plan-IsWritable row snapshot (some plan) = record {
  holds = λ db w.
      elim (Bool-cases (
        any
          (λ (other : TaskPlanRow).
            str_eq other.task_id snapshot.task_id && other.version == snapshot.version)
          db.plans)) [
            | inl taken ↦ rw taken tt
            | inr free ↦ rw free (with_plans-IsWritable row db _ (db.drawn + 1) w)
          ];
}

-- A row with the lease and the calls of another one.
abbrev SameLease : WorkflowJobRow → WorkflowJobRow → Type 0
SameLease job row = (row.owner ≡ job.owner) × (row.pending_calls ≡ job.pending_calls)

save_modified-IsWritable :
    (digest : Snapshot → String) (job : WorkflowJobRow) (out : Result Error Snapshot)
    → IsSound job
    → Ensures
        (IsWritable job)
        (save_modified digest job out)
        (λ row db. IsWritable row db × SameLease job row)
unfolding save_modified
save_modified-IsWritable digest job (err e) s = Ensures-raise e
save_modified-IsWritable digest job (ok snapshot) s =
    Ensures-bind (add_plan-IsWritable job snapshot snapshot.plan) (λ _.
      Ensures-weaken (checkpoint-IsWritable digest job snapshot s) (λ db w. w)
        (λ row db (w, advanced). (w, rw advanced (refl, refl))))

apply_modification-IsWritable :
    (digest : Snapshot → String) (job : WorkflowJobRow) (snapshot : Snapshot)
    (action : DecisionAction) (specification : Option ExperimentSpecification)
    → IsSound job
    → Ensures
        (IsWritable job)
        (apply_modification digest job snapshot action specification)
        (λ row db. IsWritable row db × SameLease job row)
unfolding apply_modification
apply_modification-IsWritable digest job snapshot modify_operation none s =
    Ensures-raise assertion_failed
apply_modification-IsWritable digest job snapshot modify_operation (some specification) s =
    save_modified-IsWritable digest job (modified snapshot specification) s
apply_modification-IsWritable digest job snapshot approve specification s =
    Ensures-pure job (λ db w. (w, (refl, refl)))
apply_modification-IsWritable digest job snapshot reject specification s =
    Ensures-pure job (λ db w. (w, (refl, refl)))

decided_job-is_leased : (action : DecisionAction) → is_leased (decided_job action) ≡ false
decided_job-is_leased approve = refl
decided_job-is_leased reject = refl
decided_job-is_leased modify_operation = refl

decided-IsWritable :
    (row : WorkflowJobRow) (now : ℕ) (task_id : String) (id : ℕ) (decision : ApprovalDecision)
    → Ensures {E = Error}
        (IsWritable row)
        (modify (λ (db : Db). record db {
          approvals = decide_approval now task_id id decision db.approvals;
        }))
        (λ _. IsWritable row)
decided-IsWritable row now task_id id decision = record {
  holds = λ db w.
      with_approvals-IsWritable row db (decide_approval now task_id id decision db.approvals)
        db.drawn w;
}

record_decision-IsIntegral :
    (now : ℕ) (task_id : String) (decision : ApprovalDecision) (id : ℕ) (row : WorkflowJobRow)
    → IsSound (record row { status = decided_job decision.action })
    → Ensures (IsWritable row) (record_decision now task_id decision id row) (λ _. IsIntegral)
unfolding record_decision
record_decision-IsIntegral now task_id decision id row s =
    Ensures-bind (decided-IsWritable row now task_id id decision) (λ _.
      Ensures-bind (set_status-IsWritable row (decided_job decision.action) s) (λ row'.
        Ensures-weaken
          (conclude row' task_id "approval_decided" (decision_payload id decision)
            (decided_job decision.action))
          (λ db (w, changed). w) (λ _ db i. i)))

refuse_error-IsWritable :
    (row : WorkflowJobRow) (e : Option Error)
    → Ensures (IsWritable row) (refuse_error e) (λ _. IsWritable row)
refuse_error-IsWritable row none = Ensures-pure tt (λ db w. w)
refuse_error-IsWritable row (some e) = Ensures-raise e

-- A job that waits for an approval is held by no worker, and stays so.
decided-IsSound :
    (job row : WorkflowJobRow) (action : DecisionAction)
    → IsSound job
    → is_awaiting job.status ≡ true
    → SameLease job row
    → IsSound (record row { status = decided_job action })
decided-IsSound job row action s waits same = record {
  leased = rw (same.0, s.leased, decided_job-is_leased action) (idle job.status waits);
  single = rw same.1 s.single;
}
  where
    idle : (status : Status) → is_awaiting status ≡ true → is_leased status ≡ false
    idle status h = ground arith

decide_new-IsIntegral :
    (digest : Snapshot → String) (now : ℕ) (task_id : String) (decision : ApprovalDecision)
    (snapshot : Snapshot) (prior : ℕ) (job : WorkflowJobRow) (row : WorkflowApprovalRow)
    → IsSound job
    → Ensures
        (IsWritable job)
        (decide_new digest now task_id decision snapshot prior job row)
        (λ _. IsIntegral)
unfolding decide_new
decide_new-IsIntegral digest now task_id decision snapshot prior job row s =
    Ensures-bind
      (Ensures-refuse_if (not (is_awaiting job.status) || not (job.checkpoint_sequence == prior))
        workflow_state_conflict)
      (λ _. Ensures-assume (λ current.
        Ensures-bind
          (Ensures-weaken (Ensures-refuse_if (lacks_parameters decision snapshot) assertion_failed)
            (λ db w. w) (λ _ db (w, given). w))
          (λ _. Ensures-bind (refuse_error-IsWritable job (check_row now decision.action row)) (λ _.
            Ensures-bind
              (apply_modification-IsWritable digest job snapshot decision.action
                decision.specification s)
              (λ job'. Ensures-assume (λ same.
                record_decision-IsIntegral now task_id decision row.id job'
                  (decided-IsSound job job' decision.action s (ground (arith, current)) same)))))))

decide_found-IsIntegral :
    (digest : Snapshot → String) (operation_digest : Operation → String) (now : ℕ)
    (task_id : String) (decision : ApprovalDecision) (snapshot : Snapshot) (prior : ℕ)
    (job : WorkflowJobRow) (found : Option WorkflowApprovalRow)
    → IsSound job
    → Ensures
        (IsWritable job)
        (decide_found digest operation_digest now task_id decision snapshot prior job found)
        (λ _. IsIntegral)
unfolding decide_found decide_row
decide_found-IsIntegral digest operation_digest now task_id decision snapshot prior job none s =
    Ensures-raise approval_not_found
decide_found-IsIntegral digest operation_digest now task_id decision snapshot prior job (some row)
      s =
    Ensures-bind
      (Ensures-weaken
        (Ensures-refuse_if
          (not (str_eq row.operation_sha256 decision.operation_sha256)
            || not (str_eq (operation_digest row.payload) decision.operation_sha256)
            || not (row.payload.plan_version == snapshot.version))
          approval_stale)
        (λ db w. w) (λ _ db (w, current). w))
      (λ _.
        Ensures-if (is_repeated decision.action row.status)
          (λ again. Ensures-pure job.status (λ db w. w.integral))
          (λ fresh. decide_new-IsIntegral digest now task_id decision snapshot prior job row s))

expect_if-IsWritable :
    (row : WorkflowJobRow) (expected : Option ExpectedWorkflowState)
    → Ensures (IsWritable row) (expect_if row expected) (λ _. IsWritable row)
expect_if-IsWritable row none = Ensures-pure tt (λ db w. w)
expect_if-IsWritable row (some expected) = expect-IsWritable row expected

pub decide_read-IsIntegral :
    (digest : Snapshot → String) (operation_digest : Operation → String) (now : ℕ)
    (task_id : String) (approval_id : ℕ) (decision : ApprovalDecision)
    (expected : Option ExpectedWorkflowState) (snapshot : Snapshot) (prior : ℕ)
    → Keeps IsIntegral (
        decide_read digest operation_digest now task_id approval_id decision expected snapshot
          prior)
unfolding decide_read
decide_read-IsIntegral digest operation_digest now task_id approval_id decision expected snapshot
      prior =
    locked_update task_id _ (λ job s e. Ensures-bind (expect_if-IsWritable job expected) (λ _.
      Ensures-bind
        (Ensures-gets {Q = λ _. IsWritable job}
          (λ (db : Db). find_row task_id approval_id db.approvals) (λ db w. w))
        (λ found.
          decide_found-IsIntegral digest operation_digest now task_id decision snapshot prior job
            found s)))
