-- ===== src/Durable/Uncertain.antt =====
-- orchestration/durable_repository.py: an external call whose result is not known, and the use of an
-- approval.
use auto_scholar.Prelude.{
  ℕ, String, ◌≡◌, refl, true, false, not, ◌||◌, Option, some, ap, is_empty, str_eq, Bool-cases, inl,
  inr,
}
use auto_scholar.Prelude.Table.{Table, get}
use auto_scholar.Prelude.Result.{Result, err, pure, refuse_if, ◌>>◌, bind_err}
use auto_scholar.Snapshot.{Value}
use auto_scholar.Durable.Rows.{Status, recovery_required, WorkflowJobRow, Db}
use auto_scholar.Durable.Session.{Error, operation_uncertain, event, holds_lease, write_job}
use auto_scholar.Durable.Work.{
  begin, begin_held, start_unit, journal, write_call, journal_calls, start_call, lift, merge_spent,
  journal_event, journal_payload, is_cancel_requested,
}
use auto_scholar.Durable.Save.{saved_status, may_stay_pending}
use auto_scholar.Durable.Fencing.{fenced_err}

pending_refused :
    (call_id kind : String) (row : WorkflowJobRow)
    → is_empty row.pending_calls ≡ false
    → str_eq kind "budget" ≡ false
    → str_eq kind "llm_local_rejected" ≡ false
    → journal_calls call_id kind true row ≡ err operation_uncertain
unfolding journal_calls start_call
pending_refused call_id kind row left_open not_budget not_local =
    rw (not_budget, not_local, left_open) refl

begin_refused :
    (now : ℕ) (active : Table Value) (row : WorkflowJobRow) (db : Db)
    → is_empty row.pending_calls ≡ false
    → begin_held now active row db ≡ (err operation_uncertain, db)
begin_refused now active row db left_open =
    bind_err
      (refuse_if (not (is_empty row.active) || not (is_empty row.pending_calls))
        operation_uncertain)
      (λ _. do start_unit now active row; pure row.status)
      (elim (Bool-cases (is_empty row.active)) [
        | inl idle ↦ rw (idle, left_open) refl
        | inr busy ↦ rw busy refl
      ])

refused_lift :
    (db : Db) (out : Result Error WorkflowJobRow)
    → out ≡ err operation_uncertain
    → lift out db ≡ (err operation_uncertain, db)
unfolding lift
refused_lift db out e = ap (λ (x : Result Error WorkflowJobRow). (x, db)) e

-- An open external call is never replayed. While a job has one, its worker cannot begin a unit and cannot
-- start another call: both fail as uncertain, and change nothing. When the worker saves, the job goes to
-- recovery with that reason, whatever the worker asked for, unless it was cancelled or is out of budget.
pub uncertain_blocks :
    (now : ℕ) (task_id owner : String) (generation : ℕ) (db : Db) (row : WorkflowJobRow)
    → get db.jobs task_id ≡ some row
    → holds_lease row owner generation now ≡ true
    → is_empty row.pending_calls ≡ false
    → ((active : Table Value)
        → begin now task_id owner generation active db ≡ (err operation_uncertain, db))
      × ((call_id kind : String) (usage : Table ℕ) (elapsed : ℕ)
          → str_eq kind "budget" ≡ false
          → str_eq kind "llm_local_rejected" ≡ false
          → journal now task_id owner generation call_id kind true usage elapsed db
            ≡ (err operation_uncertain, db))
      × ((status : Status) (code : Option String)
          → is_cancel_requested row.status ≡ false
          → may_stay_pending status ≡ false
          → saved_status row status code ≡ (recovery_required, some "external_result_uncertain"))
unfolding begin journal saved_status
uncertain_blocks now task_id owner generation db row found holds left_open = (
  λ active.
      fenced_err now task_id owner generation db row (begin_held now active) found holds
        (begin_refused now active row db left_open),
  λ call_id kind usage elapsed not_budget not_local.
      fenced_err now task_id owner generation db row
        (write_call task_id call_id kind true usage elapsed) found holds
        (bind_err (lift (journal_calls call_id kind true row))
          (λ row'. do
            write_job (merge_spent usage elapsed row')
            event task_id (journal_event kind true) (journal_payload call_id kind))
          (refused_lift db (journal_calls call_id kind true row)
            (pending_refused call_id kind row left_open not_budget not_local))),
  λ status code not_cancelled must_settle. rw (not_cancelled, left_open, must_settle) refl,
)
