-- ===== src/Durable/Expecting.antt =====
-- orchestration/durable_repository.py, `control`: a cancellation by a client that states what it expects.
use auto_scholar.Prelude.{
  String, ℕ, Bool, ◌≡◌, refl, true, false, Option, none, some, arith, ap, sym, ◌∙◌, Bool-cases,
  Option-cases, inl, inr, ◌⊎◌, not,
}
use auto_scholar.Prelude.Table.{get}
use auto_scholar.Prelude.Result.{
  Result, ok, err, ◌>>=◌, ◌>>◌, bind_ok, bind_err, transaction_err, refuse_if,
}
use auto_scholar.Durable.Rows.{
  Status, cancel_requested, is_terminal, WorkflowJobRow, AgentTaskRow, Db,
}
use auto_scholar.Durable.Session.{
  Session, Error, workbench_state_stale, workflow_state_conflict, ExpectedWorkflowState,
  Status-discrete, same_status, task_matches, is_expected, expect, locked,
}
use auto_scholar.Durable.Control.{cancel, is_allowed, control, target, apply_target, check_expected}
use auto_scholar.Durable.Integrity.Guards.{locked_found}

-- The job and its task are as the client expects them.
pub record AsExpected (row : WorkflowJobRow) (expected : ExpectedWorkflowState) (db : Db)
    : Type 0 where
  pub status : row.status ≡ expected.status
  pub sequence : row.checkpoint_sequence ≡ expected.checkpoint_sequence
  pub task : AgentTaskRow
  pub found : get db.tasks row.task_id ≡ some task
  pub is_parentless : task.parent_task_id ≡ none
  pub events : task.event_sequence ≡ expected.event_sequence

-- What a cancellation does for a client that states what it expects.
pub data Expecting (id : String) (row : WorkflowJobRow) (expected : ExpectedWorkflowState) (db : Db)
    : Type 0 where
  served :
      AsExpected row expected db
      → control id cancel (some expected) db ≡ control id cancel none db
      → Expecting id row expected db
  ended :
      AsExpected row expected db
      → (is_terminal row.status ≡ true) ⊎ (row.status ≡ cancel_requested)
      → control id cancel (some expected) db ≡ (err workflow_state_conflict, db)
      → Expecting id row expected db
  stale :
      ¬ AsExpected row expected db
      → control id cancel (some expected) db ≡ (err workbench_state_stale, db)
      → Expecting id row expected db

-- `control` after it has the job.
after_lock : Option ExpectedWorkflowState → WorkflowJobRow → Session Status
after_lock expected row = do
  check_expected row cancel expected
  apply_target row cancel (target cancel row.status)

module _ (row : WorkflowJobRow) (expected : ExpectedWorkflowState) (db : Db) where
  same_status_iff :
      (a b : Status) → (same_status a b ≡ true → a ≡ b) × (a ≡ b → same_status a b ≡ true)
  same_status_iff a b = decided (Status-discrete a b)
    where
      decided :
          (d : Dec (a ≡ b))
          → ((elim d as (λ _. Bool) [ yes _ ↦ true | no _ ↦ false ]) ≡ true → a ≡ b)
            × (a ≡ b → (elim d as (λ _. Bool) [ yes _ ↦ true | no _ ↦ false ]) ≡ true)
      decided (yes e) = (λ _. e, λ _. refl)
      decided (no n) = (λ h. absurd (cc (h)), λ e. absurd (n e))

  task_found :
      (o : Option AgentTaskRow) (n : ℕ)
      → task_matches o n ≡ true
      → (task : AgentTaskRow) × (o ≡ some task)
        × (task.parent_task_id ≡ none)
        × (task.event_sequence ≡ n)
  task_found none n h = absurd (cc (h))
  task_found (some task) n h = elim (Option-cases task.parent_task_id) [
    | inl top ↦ (task, refl, top, ground (arith, rw top at h))
    | inr (parent, child) ↦ absurd (cc (rw child at h))
  ]

  found-AsExpected : is_expected row expected db ≡ true → AsExpected row expected db
  found-AsExpected h =
      let (task, found, top, events) =
        task_found (get db.tasks row.task_id) expected.event_sequence (ground (arith, h)) in
      record {
        status = (same_status_iff row.status expected.status).0 (ground (arith, h));
        sequence = ground (arith, h);
        task = task;
        found = found;
        is_parentless = top;
        events = events;
      }

  AsExpected-found : AsExpected row expected db → is_expected row expected db ≡ true
  AsExpected-found e =
      rw
        (
          (same_status_iff row.status expected.status).1 e.status,
          e.found,
          e.is_parentless,
          e.events,
          e.sequence,
        )
        (ground arith)

  checked_ok :
      (id : String)
      → get db.jobs id ≡ some row
      → check_expected row cancel (some expected) db ≡ (ok tt, db)
      → control id cancel (some expected) db ≡ control id cancel none db
  unfolding control after_lock
  checked_ok id found h =
      ap
        (λ (out : Result Error Status × Db). elim out.0 as (λ _. Result Error Status × Db) [
          | ok a ↦ (ok a, out.1)
          | err e ↦ (err e, db)
        ])
        (bind_ok (locked id) (after_lock (some expected)) (locked_found id db row found)
          ∙ bind_ok (check_expected row cancel (some expected))
              (λ _. apply_target row cancel (target cancel row.status)) h
          ∙ sym (
              bind_ok (locked id) (after_lock none) (locked_found id db row found)
              ∙ unfold check_expected in refl))

  checked_err :
      (id : String) (e : Error)
      → get db.jobs id ≡ some row
      → check_expected row cancel (some expected) db ≡ (err e, db)
      → control id cancel (some expected) db ≡ (err e, db)
  unfolding control after_lock
  checked_err id e found h =
      transaction_err (do r ← locked id; after_lock (some expected) r)
        (bind_ok (locked id) (after_lock (some expected)) (locked_found id db row found)
          ∙ bind_err (check_expected row cancel (some expected))
              (λ _. apply_target row cancel (target cancel row.status)) h)

  -- Only a job that has ended or is being cancelled refuses a client whose expectation is met.
  refused_ended :
      (status : Status)
      → is_allowed cancel status ≡ false
      → (is_terminal status ≡ true) ⊎ (status ≡ cancel_requested)
  refused_ended status h = ground arith

  checked :
      {out : Result Error (Unit {0})}
      → is_expected row expected db ≡ true
      → refuse_if (not (is_allowed cancel row.status)) workflow_state_conflict db ≡ (out, db)
      → check_expected row cancel (some expected) db ≡ (out, db)
  unfolding check_expected expect
  checked fits h =
      bind_ok (expect row expected)
        (λ _. refuse_if (not (is_allowed cancel row.status)) workflow_state_conflict) (rw fits refl)
      ∙ h

  allowed-Expecting :
      (id : String)
      → get db.jobs id ≡ some row
      → AsExpected row expected db
      → Expecting id row expected db
  unfolding check_expected expect
  allowed-Expecting id found e = elim (Bool-cases (is_allowed cancel row.status)) [
    | inl allowed ↦ served e (checked_ok id found (checked (AsExpected-found e) (rw allowed refl)))
    | inr refused ↦ ended e (refused_ended row.status refused) (
        checked_err id workflow_state_conflict found
          (checked (AsExpected-found e) (rw refused refl)))
  ]

  pub control-Expecting : (id : String) → get db.jobs id ≡ some row → Expecting id row expected db
  unfolding check_expected expect
  control-Expecting id found = elim (Bool-cases (is_expected row expected db)) [
    | inl fits ↦ allowed-Expecting id found (found-AsExpected fits)
    | inr differs ↦
        stale (λ e. absurd (cc (differs, AsExpected-found e)))
          (checked_err id workbench_state_stale found (
            bind_err (expect row expected)
              (λ _. refuse_if (not (is_allowed cancel row.status)) workflow_state_conflict)
              (rw differs refl)))
  ]
