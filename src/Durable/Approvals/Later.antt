-- ===== src/Durable/Approvals/Later.antt =====
-- orchestration/durable_repository.py and orchestration/approvals.py: an approval that was used, over any later
-- transactions.
use auto_scholar.Prelude.{
  ℕ, String, ◌≡◌, refl, true, not, ◌&&◌, ◌||◌, ◌==◌, leb, str_eq, Option, none, some, List, [], ◌∷◌,
  ap, ◌∙◌, arith, sym, subst, Bool-cases, inl, inr,
}
use auto_scholar.Prelude.Table.{Table}
use auto_scholar.Prelude.Result.{err, modify}
use auto_scholar.Prelude.Ensures.{
  Ensures, Keeps, Ensures-bind, Ensures-assume, Ensures-pure, Ensures-raise, Ensures-gets,
  Ensures-if, Keeps-transaction,
}
use auto_scholar.Plan.{PlanStep}
use auto_scholar.Snapshot.{Value, Snapshot}
use auto_scholar.Durable.Rows.{WorkflowJobRow, WorkflowApprovalRow, Operation, Db}
use auto_scholar.Durable.Session.{
  Error, approval_required, approval_stale, workflow_state_conflict, assertion_failed,
  approval_not_found, ExpectedWorkflowState,
}
use auto_scholar.Durable.Work.{begin, check_approval, use_approval, is_approved}
use auto_scholar.Durable.Approvals.{gate}
use auto_scholar.Durable.Approvals.Decisions.{
  ApprovalDecision, decided_job, decide_approval, record_decision, decision_payload, is_awaiting,
  lacks_parameters, check_row, refuse_error, decide_new, decide_row, decide_found, decide_read,
  is_repeated, find_row,
}
use auto_scholar.Durable.Approvals.Closed.{IsClosed, decide-IsClosed}
use auto_scholar.Durable.Approvals.Users.{
  On, event-On, locked-On, set_status-On, refuse-On, expect_if-On, apply_modification-On,
  begin-Closed, gate-Closed,
}

module _ (task_id hash : String) where
  abbrev Closed : List WorkflowApprovalRow → Type 0
  Closed = IsClosed task_id hash

  -- The approvals in which a row was selected.
  abbrev Selected : String → ℕ → WorkflowApprovalRow → List WorkflowApprovalRow → Type 0
  Selected key id row rows = Closed rows × (find_row key id rows ≡ some row)

  refuse_error-Selected :
      (P : List WorkflowApprovalRow → Type 0) (e : Option Error)
      → Ensures (On P) (refuse_error e) (λ _ db. On P db × (e ≡ none))
  refuse_error-Selected P none = Ensures-pure tt (λ db p. (p, refl))
  refuse_error-Selected P (some e) = Ensures-raise e

  decided-Closed :
      (now : ℕ) (key : String) (decision : ApprovalDecision) (id : ℕ) (row : WorkflowApprovalRow)
      → check_row now decision.action row ≡ none
      → Ensures {E = Error}
          (On (Selected key id row))
          (modify (λ (db : Db). record db {
            approvals = decide_approval now key id decision db.approvals;
          }))
          (λ _. On Closed)
  decided-Closed now key decision id row fits = record {
    holds = λ db (closed, chosen).
        decide-IsClosed task_id hash now key id decision row db.approvals chosen fits closed;
  }

  record_decision-Closed :
      (now : ℕ) (key : String) (decision : ApprovalDecision) (id : ℕ) (row : WorkflowApprovalRow)
      (job : WorkflowJobRow)
      → check_row now decision.action row ≡ none
      → Ensures
          (On (Selected key id row))
          (record_decision now key decision id job)
          (λ _. On Closed)
  unfolding record_decision
  record_decision-Closed now key decision id row job fits =
      Ensures-bind (decided-Closed now key decision id row fits) (λ _.
        Ensures-bind (set_status-On Closed job (decided_job decision.action)) (λ job'.
          Ensures-bind (event-On Closed key "approval_decided" (decision_payload id decision))
            (λ _. Ensures-pure (decided_job decision.action) (λ db p. p))))

  decide_new-Closed :
      (digest : Snapshot → String) (now : ℕ) (key : String) (decision : ApprovalDecision)
      (snapshot : Snapshot) (prior : ℕ) (job : WorkflowJobRow) (id : ℕ) (row : WorkflowApprovalRow)
      → row.id ≡ id
      → Ensures
          (On (Selected key id row))
          (decide_new digest now key decision snapshot prior job row)
          (λ _. On Closed)
  unfolding decide_new
  decide_new-Closed digest now key decision snapshot prior job id row same =
      Ensures-bind
        (refuse-On (Selected key id row)
          (not (is_awaiting job.status) || not (job.checkpoint_sequence == prior))
          workflow_state_conflict)
        (λ _.
          Ensures-bind
            (refuse-On (Selected key id row) (lacks_parameters decision snapshot) assertion_failed)
            (λ _.
              Ensures-bind
                (refuse_error-Selected (Selected key id row) (check_row now decision.action row))
                (λ _. Ensures-assume (λ fits.
                  Ensures-bind
                    (apply_modification-On (Selected key id row) digest job snapshot decision.action
                      decision.specification)
                    (λ job'.
                      subst
                        (λ n.
                          Ensures (On (Selected key id row))
                            (record_decision now key decision n job') (λ _. On Closed))
                        (sym same) (record_decision-Closed now key decision id row job' fits))))))

  found_id :
      (key : String) (id : ℕ) (rows : List WorkflowApprovalRow) (row : WorkflowApprovalRow)
      → find_row key id rows ≡ some row
      → row.id ≡ id
  found_id key id [] row h = absurd (cc (h))
  found_id key id (r ∷ rows) row h = elim (Bool-cases (r.id == id && str_eq r.task_id key)) [
    | inl here ↦
        let e : some r ≡ some row = rw here at h in
        let n : r.id ≡ id = ground (arith, here) in cc (e, n)
    | inr other ↦ found_id key id rows row (rw other at h)
  ]

  decide_found-Closed :
      (digest : Snapshot → String) (operation_digest : Operation → String) (now : ℕ) (key : String)
      (id : ℕ) (decision : ApprovalDecision) (snapshot : Snapshot) (prior : ℕ)
      (job : WorkflowJobRow) (found : Option WorkflowApprovalRow)
      → Ensures
          (λ db. On Closed db × (find_row key id db.approvals ≡ found))
          (decide_found digest operation_digest now key decision snapshot prior job found)
          (λ _. On Closed)
  unfolding decide_found decide_row
  decide_found-Closed digest operation_digest now key id decision snapshot prior job none =
      Ensures-raise approval_not_found
  decide_found-Closed digest operation_digest now key id decision snapshot prior job (some row) =
      Ensures-bind
        (refuse-On (Selected key id row)
          (not (str_eq row.operation_sha256 decision.operation_sha256)
            || not (str_eq (operation_digest row.payload) decision.operation_sha256)
            || not (row.payload.plan_version == snapshot.version))
          approval_stale)
        (λ _.
          Ensures-if (is_repeated decision.action row.status)
            (λ again. Ensures-pure job.status (λ db p. p.0))
            (λ fresh. record {
              holds = λ db p.
                  (decide_new-Closed digest now key decision snapshot prior job id row
                      (found_id key id db.approvals row p.1)).holds
                    db p;
            }))

  decide_read-Closed :
      (digest : Snapshot → String) (operation_digest : Operation → String) (now : ℕ) (key : String)
      (id : ℕ) (decision : ApprovalDecision) (expected : Option ExpectedWorkflowState)
      (snapshot : Snapshot) (prior : ℕ)
      → Keeps
          (On Closed)
          (decide_read digest operation_digest now key id decision expected snapshot prior)
  unfolding decide_read
  decide_read-Closed digest operation_digest now key id decision expected snapshot prior =
      Keeps-transaction _ (
        Ensures-bind (locked-On Closed key) (λ job.
          Ensures-bind (expect_if-On Closed job expected) (λ _.
            Ensures-bind
              (Ensures-gets {Q = λ found db. On Closed db × (find_row key id db.approvals ≡ found)}
                (λ (db : Db). find_row key id db.approvals) (λ db p. (p, refl)))
              (λ found.
                decide_found-Closed digest operation_digest now key id decision snapshot prior job
                  found))))

-- The transactions after one: any calls of the three operations that write approvals, failed ones included,
-- and anything that does not write them.
pub data Later (db : Db) : Db → Type 0 where
  now_on : (same : Db) → db ≡ same → Later db same
  begins :
      (db' : Db)
      → Later db db'
      → (now : ℕ) (key owner : String) (generation : ℕ) (active : Table Value)
      → Later db (begin now key owner generation active db').1
  gates :
      (db' : Db)
      → Later db db'
      → (source_digest : Table String → String) (operation_digest : Operation → String) (now : ℕ)
        (run : Snapshot) (step : PlanStep) (owner : String) (generation : ℕ)
      → Later db (gate source_digest operation_digest now run step owner generation db').1
  decides :
      (db' : Db)
      → Later db db'
      → (digest : Snapshot → String) (operation_digest : Operation → String) (now : ℕ)
        (key : String) (id : ℕ) (decision : ApprovalDecision)
        (expected : Option ExpectedWorkflowState) (snapshot : Snapshot) (prior : ℕ)
      → Later db
          (decide_read digest operation_digest now key id decision expected snapshot prior db').1
  others : (db' db'' : Db) → Later db db' → db''.approvals ≡ db'.approvals → Later db db''

pub Later-IsClosed :
    (task_id hash : String) (db db' : Db)
    → Later db db'
    → IsClosed task_id hash db.approvals
    → IsClosed task_id hash db'.approvals
Later-IsClosed task_id hash db _ (now_on same e) c =
    subst (λ (x : Db). IsClosed task_id hash x.approvals) e c
Later-IsClosed task_id hash db _ (begins db' l now key owner generation active) c =
    begin-Closed task_id hash now key owner generation active db'
      (Later-IsClosed task_id hash db db' l c)
Later-IsClosed task_id hash db _
      (gates db' l source_digest operation_digest now run step owner generation) c =
    gate-Closed task_id hash source_digest operation_digest now run step owner generation db'
      (Later-IsClosed task_id hash db db' l c)
Later-IsClosed task_id hash db _
      (decides db' l digest operation_digest now key id decision expected snapshot prior) c =
    decide_read-Closed task_id hash digest operation_digest now key id decision expected snapshot
      prior db' (Later-IsClosed task_id hash db db' l c)
Later-IsClosed task_id hash db _ (others db' db'' l same) c =
    subst (IsClosed task_id hash) (sym same) (Later-IsClosed task_id hash db db' l c)

-- The check of a closed approval fails and changes nothing.
pub closed_refused :
    (time : ℕ) (task_id hash : String) (db : Db)
    → IsClosed task_id hash db.approvals
    → check_approval time task_id (some hash) db ≡ (err approval_required, db)
unfolding check_approval use_approval
closed_refused time task_id hash db (row, found, closed) =
    let unused : (not (is_approved row.status) || leb row.expires_at time) ≡ true =
      ground (arith, closed) in
    ap (λ (x : Option WorkflowApprovalRow). use_approval time task_id x db) found ∙ rw unused refl
