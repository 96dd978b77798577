-- ===== src/Durable/Work.antt =====
-- orchestration/durable_repository.py: `begin`, the start of one unit of work, and `journal`, the
-- accounting of one external call.
use auto_scholar.Prelude.{
  ℕ, ◌-◌, max, String, Bool, true, false, not, ◌&&◌, ◌||◌, Option, none, some, List, [], ◌∷◌,
  is_empty, find, str_eq, leb, ◌==◌, get_or, if◌then◌else◌,
}
use auto_scholar.Prelude.Table.{Table, get, put, remove}
use auto_scholar.Prelude.Result.{
  Result, ok, err, pure, raise, gets, modify, refuse_if, transaction, ◌>>=◌, ◌>>◌,
}
use auto_scholar.Snapshot.{Value, text, number, flag}
use auto_scholar.Durable.Rows.{
  Status, running, cancel_requested, WorkflowJobRow, WorkflowApprovalRow, ApprovalStatus, approved,
  consumed,
}
use auto_scholar.Durable.Session.{
  Session, Error, lease_lost, operation_uncertain, approval_required, workflow_cancel_requested,
  event, locked, write_job, fence, merge_usage,
}

abbrev pub is_running : Status → Bool
is_running running = true
is_running _ = false

abbrev pub is_cancel_requested : Status → Bool
is_cancel_requested cancel_requested = true
is_cancel_requested _ = false

abbrev text_value : Option Value → Option String
text_value (some (text s)) = if str_eq s "" then none else some s
text_value _ = none

-- `active.get("operation_sha256")`, when it counts as true.
abbrev pub operation_hash : Table Value → Option String
operation_hash active = text_value (get active "operation_sha256")

abbrev pub is_approval_of : String → String → WorkflowApprovalRow → Bool
is_approval_of task_id operation_sha256 row =
    str_eq row.task_id task_id && str_eq row.operation_sha256 operation_sha256

-- `session.scalar(select(WorkflowApprovalRow).where(...))`.
abbrev pub find_approval : String → String → List WorkflowApprovalRow → Option WorkflowApprovalRow
find_approval task_id operation_sha256 rows = find (is_approval_of task_id operation_sha256) rows

abbrev pub is_approved : ApprovalStatus → Bool
is_approved approved = true
is_approved _ = false

-- `row.status = ...` on the approval with that identifier.
unfoldable pub mark_approval :
    ℕ → ApprovalStatus → List WorkflowApprovalRow → List WorkflowApprovalRow
mark_approval id status [] = []
mark_approval id status (row ∷ rows) =
    (if row.id == id then record row { status = status } else row) ∷ mark_approval id status rows

unfoldable pub use_approval : ℕ → String → Option WorkflowApprovalRow → Session (Unit {0})
use_approval now task_id none = raise approval_required
use_approval now task_id (some approval) = do
  refuse_if (not (is_approved approval.status) || leb approval.expires_at now) approval_required
  modify (λ db. record db { approvals = mark_approval approval.id consumed db.approvals })
  event task_id "approval_consumed" (("approval_id", number approval.id) ∷ [])

unfoldable pub check_approval : ℕ → String → Option String → Session (Unit {0})
unfolding use_approval
check_approval now task_id none = pure tt
check_approval now task_id (some operation_sha256) = do
  approval ← gets (λ db. find_approval task_id operation_sha256 db.approvals)
  use_approval now task_id approval

-- The body of `if row.status == "running"`.
unfoldable pub start_unit : ℕ → Table Value → WorkflowJobRow → Session (Unit {0})
unfolding check_approval
start_unit now active row =
    if is_running row.status
    then (do
      check_approval now row.task_id (operation_hash active)
      write_job (record row { active = active })
      event row.task_id "unit_started" active)
    else pure tt

-- `begin` on the job that it holds.
abbrev pub begin_held : ℕ → Table Value → WorkflowJobRow → Session Status
begin_held now active row = do
  refuse_if (not (is_empty row.active) || not (is_empty row.pending_calls)) operation_uncertain
  start_unit now active row
  pure row.status

unfoldable pub begin : ℕ → String → String → ℕ → Table Value → Session Status
unfolding start_unit
begin now task_id owner generation active =
    transaction (do row ← locked task_id; fence row owner generation now; begin_held now active row)

-- `pending.pop(call_id, None) == kind`.
abbrev pub pops : Table String → String → String → Bool
pops pending call_id kind = elim (get pending call_id) [
  | none ↦ false
  | some found ↦ str_eq found kind
]

abbrev give_back : Table ℕ → Table ℕ
give_back usage = put usage "model_calls" (get_or (get usage "model_calls") 0 - 1)

unfoldable pub reject_locally : String → Bool → WorkflowJobRow → Result Error WorkflowJobRow
reject_locally call_id starting row =
    if starting
    then err lease_lost
    else if str_eq call_id ""
    then ok row
    else if pops row.pending_calls call_id "llm"
    then ok (record row {
      pending_calls = remove row.pending_calls call_id;
      usage = give_back row.usage;
    })
    else err lease_lost

unfoldable pub start_call : String → String → WorkflowJobRow → Result Error WorkflowJobRow
start_call call_id kind row =
    if not (is_empty row.pending_calls)
    then err operation_uncertain
    else if is_cancel_requested row.status
    then err workflow_cancel_requested
    else ok (record row { pending_calls = put row.pending_calls call_id kind })

unfoldable pub finish_call : String → String → WorkflowJobRow → Result Error WorkflowJobRow
finish_call call_id kind row =
    if pops row.pending_calls call_id kind
    then ok (record row { pending_calls = remove row.pending_calls call_id })
    else err lease_lost

-- The cases of `journal` on the pending calls, before the usage is merged.
unfoldable pub journal_calls : String → String → Bool → WorkflowJobRow → Result Error WorkflowJobRow
unfolding reject_locally start_call finish_call
journal_calls call_id kind starting row =
    if str_eq kind "budget"
    then ok row
    else if str_eq kind "llm_local_rejected"
    then reject_locally call_id starting row
    else if starting
    then start_call call_id kind row
    else finish_call call_id kind row

unfoldable pub merge_spent : Table ℕ → ℕ → WorkflowJobRow → WorkflowJobRow
merge_spent usage elapsed row = record row {
  usage = merge_usage usage row.usage;
  active_seconds = max row.active_seconds elapsed;
}

abbrev pub journal_event : String → Bool → String
journal_event kind starting =
    if str_eq kind "budget"
    then "budget_saved"
    else if str_eq kind "llm_local_rejected"
    then "local_request_rejected"
    else if starting
    then "call_started"
    else "call_finished"

abbrev pub journal_payload : String → String → Table Value
journal_payload call_id kind =
    ("call_id", text call_id)
    ∷ ("kind_name", text kind)
    ∷ (if str_eq kind "llm_local_rejected" then ("dispatched", flag false) ∷ [] else [])

unfoldable pub lift : {A : Type 0} → Result Error A → Session A
lift r db = (r, db)

-- `journal` on the job that it holds.
abbrev pub write_call :
    String → String → String → Bool → Table ℕ → ℕ → WorkflowJobRow → Session (Unit {0})
write_call task_id call_id kind starting usage elapsed row = do
  row' ← lift (journal_calls call_id kind starting row)
  write_job (merge_spent usage elapsed row')
  event task_id (journal_event kind starting) (journal_payload call_id kind)

unfoldable pub journal :
    ℕ → String → String → ℕ → String → String → Bool → Table ℕ → ℕ → Session (Unit {0})
unfolding lift merge_spent
journal now task_id owner generation call_id kind starting usage elapsed = transaction (do
  row ← locked task_id
  fence row owner generation now
  write_call task_id call_id kind starting usage elapsed row)
