-- ===== src/Durable/Approvals/Closed.antt =====
-- orchestration/durable_repository.py, `begin`, and orchestration/approvals.py, `gate` and `decide`: an approval that
-- can no longer be used.
use auto_scholar.Prelude.{
  ℕ, String, ◌≡◌, refl, false, ◌&&◌, ◌==◌, str_eq, none, some, List, [], ◌∷◌, ◌++◌, arith, sym,
  subst, Bool-cases, inl, inr,
}
use auto_scholar.Durable.Rows.{WorkflowApprovalRow, ApprovalStatus}
use auto_scholar.Durable.Work.{mark_approval, find_approval, is_approval_of}
use auto_scholar.Durable.Approvals.{is_open}
use auto_scholar.Durable.Approvals.Decisions.{
  DecisionAction, approve, reject, modify_operation, ApprovalDecision, decided_status,
  decide_approval, check_row, find_row,
}

-- The approval of an operation that the repository finds for a task can no longer be used.
abbrev pub IsClosed : String → String → List WorkflowApprovalRow → Type 0
IsClosed task_id hash rows =
    (row : WorkflowApprovalRow) × (find_approval task_id hash rows ≡ some row)
    × (is_open row.status ≡ false)

module _ (task_id hash : String) where
  same_closed :
      (row row' : WorkflowApprovalRow)
      → some row ≡ some row'
      → is_open row'.status ≡ false
      → is_open row.status ≡ false
  same_closed row row' e closed = cc

  pub mark-IsClosed :
      (id : ℕ) (status : ApprovalStatus) (rows : List WorkflowApprovalRow)
      → is_open status ≡ false
      → IsClosed task_id hash rows
      → IsClosed task_id hash (mark_approval id status rows)
  unfolding mark_approval
  mark-IsClosed id status [] c (r, found, closed) = absurd (cc (found))
  mark-IsClosed id status (row ∷ rows) c (r, found, closed) =
      elim (Bool-cases (is_approval_of task_id hash row)) [
        | inl here ↦ elim (Bool-cases (row.id == id)) [
          | inl marked ↦ (record row { status = status }, rw (marked, here) refl, c)
          | inr plain ↦ (row, rw (plain, here) refl, same_closed row r (rw here at found) closed)
        ]
        | inr other ↦
            let (r', found', closed') =
              mark-IsClosed id status rows c (r, rw other at found, closed) in
            elim (Bool-cases (row.id == id)) [
              | inl marked ↦ (r', rw (marked, other) found', closed')
              | inr plain ↦ (r', rw (plain, other) found', closed')
            ]
      ]

  pub append-IsClosed :
      (rows more : List WorkflowApprovalRow)
      → IsClosed task_id hash rows
      → IsClosed task_id hash (rows ++ more)
  append-IsClosed [] more (r, found, closed) = absurd (cc (found))
  append-IsClosed (row ∷ rows) more (r, found, closed) =
      elim (Bool-cases (is_approval_of task_id hash row)) [
        | inl here ↦ (row, rw here refl, same_closed row r (rw here at found) closed)
        | inr other ↦
            let (r', found', closed') = append-IsClosed rows more (r, rw other at found, closed) in
            (r', rw other found', closed')
      ]

  -- No action reopens a row that is closed.
  decided_closed :
      (now : ℕ) (action : DecisionAction) (row : WorkflowApprovalRow)
      → check_row now action row ≡ none
      → is_open row.status ≡ false
      → is_open (decided_status action) ≡ false
  unfolding check_row
  decided_closed now approve row h closed = absurd (ground (arith, h, closed))
  decided_closed now reject row h closed = refl
  decided_closed now modify_operation row h closed = refl

  pub decide-IsClosed :
      (now : ℕ) (key : String) (id : ℕ) (decision : ApprovalDecision) (target : WorkflowApprovalRow)
      (rows : List WorkflowApprovalRow)
      → find_row key id rows ≡ some target
      → check_row now decision.action target ≡ none
      → IsClosed task_id hash rows
      → IsClosed task_id hash (decide_approval now key id decision rows)
  unfolding decide_approval
  decide-IsClosed now key id decision target [] chosen fits (r, found, closed) = absurd (cc (found))
  decide-IsClosed now key id decision target (row ∷ rows) chosen fits (r, found, closed) =
      elim (Bool-cases (row.id == id && str_eq row.task_id key)) [
        | inl selected ↦ elim (Bool-cases (is_approval_of task_id hash row)) [
          | inl here ↦
              let same : row ≡ target = some_row (rw selected at chosen) in
              (
                record row {
                  status = decided_status decision.action;
                  reason = decision.reason;
                  decided_at = some now;
                },
                rw (selected, here) refl,
                decided_closed now decision.action row
                    (subst (λ (x : WorkflowApprovalRow). check_row now decision.action x ≡ none)
                      (sym same) fits)
                    (same_closed row r (rw here at found) closed),
              )
          | inr other ↦ (r, rw (selected, other) (rw other at found), closed)
        ]
        | inr passed ↦ elim (Bool-cases (is_approval_of task_id hash row)) [
          | inl here ↦ (row, rw (passed, here) refl, same_closed row r (rw here at found) closed)
          | inr other ↦
              let (r', found', closed') =
                decide-IsClosed now key id decision target rows (rw passed at chosen) fits
                  (r, rw other at found, closed) in
              (r', rw (passed, other) found', closed')
        ]
      ]
    where
      some_row : {a b : WorkflowApprovalRow} → some a ≡ some b → a ≡ b
      some_row h = cc
