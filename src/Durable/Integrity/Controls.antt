-- ===== src/Durable/Integrity/Controls.antt =====
-- orchestration/durable_repository.py: `control` keeps the database integral.
use auto_scholar.Prelude.{
  String, ◌≡◌, refl, not, Option, none, some, arith, sym, ◌∙◌, Bool-cases, inl, inr,
}
use auto_scholar.Prelude.Result.{Result, ok, err}
use auto_scholar.Prelude.Ensures.{
  Ensures, After-at, Keeps, Ensures-bind, Ensures-pure, Ensures-raise, Ensures-weaken,
  Ensures-refuse_if,
}
use auto_scholar.Durable.Rows.{Status, is_leased, WorkflowJobRow}
use auto_scholar.Durable.Session.{
  Error, workflow_state_conflict, ExpectedWorkflowState, is_expected, workbench_state_stale, expect,
}
use auto_scholar.Durable.Control.{Action, control, target, apply_target, check_expected, is_allowed}
use auto_scholar.Durable.Integrity.{IsSound, IsIntegral, IsWritable}
use auto_scholar.Durable.Integrity.Tasks.{set_status-IsWritable}
use auto_scholar.Durable.Integrity.Guards.{locked_update, conclude}

-- A target keeps the lease: a job that a worker holds stays with it, another is not given to one.
target-is_leased :
    (action : Action) (status next : Status)
    → target action status ≡ ok (some next)
    → is_leased next ≡ is_leased status
unfolding target
target-is_leased action status next h = ground arith

pub expect-IsWritable :
    (row : WorkflowJobRow) (expected : ExpectedWorkflowState)
    → Ensures (IsWritable row) (expect row expected) (λ _. IsWritable row)
unfolding expect
expect-IsWritable row expected = record {
  holds = λ db w. elim (Bool-cases (is_expected row expected db)) [
    | inl current ↦
        let kept : expect row expected db ≡ (ok tt, db) = rw (current, expect) refl in
        After-at (λ _. IsWritable row) kept w
    | inr stale ↦
        let kept : expect row expected db ≡ (err workbench_state_stale, db) =
          rw (stale, expect) refl in
        After-at (λ _. IsWritable row) kept tt
  ];
}

check_expected-IsWritable :
    (row : WorkflowJobRow) (action : Action) (expected : Option ExpectedWorkflowState)
    → Ensures (IsWritable row) (check_expected row action expected) (λ _. IsWritable row)
unfolding check_expected
check_expected-IsWritable row action none = Ensures-pure tt (λ db w. w)
check_expected-IsWritable row action (some expected) =
    Ensures-bind (expect-IsWritable row expected) (λ _.
      Ensures-weaken
        (Ensures-refuse_if (not (is_allowed action row.status)) workflow_state_conflict) (λ db w. w)
        (λ _ db (w, allowed). w))

apply_target-IsIntegral :
    (row : WorkflowJobRow) (action : Action) (out : Result Error (Option Status))
    → IsSound row
    → ((next : Status) → out ≡ ok (some next) → is_leased next ≡ is_leased row.status)
    → Ensures (IsWritable row) (apply_target row action out) (λ _. IsIntegral)
unfolding apply_target
apply_target-IsIntegral row action (err e) s kept = Ensures-raise e
apply_target-IsIntegral row action (ok none) s kept = Ensures-pure row.status (λ db w. w.integral)
apply_target-IsIntegral row action (ok (some status)) s kept =
    Ensures-bind
      (set_status-IsWritable row status
        (record { leased = s.leased ∙ sym (kept status refl); single = s.single }))
      (λ row'.
        Ensures-weaken (conclude row' row.task_id _ _ status) (λ db (w, changed). w) (λ a db q. q))

pub control-IsIntegral :
    (task_id : String) (action : Action) (expected : Option ExpectedWorkflowState)
    → Keeps IsIntegral (control task_id action expected)
unfolding control
control-IsIntegral task_id action expected = locked_update task_id _ (λ row s e.
    Ensures-bind (check_expected-IsWritable row action expected) (λ _.
      apply_target-IsIntegral row action (target action row.status) s
        (λ next h. target-is_leased action row.status next h)))
