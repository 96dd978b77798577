-- ===== src/Durable/Lease.antt =====
-- orchestration/durable_repository.py: `claim`, `heartbeat` and `quarantine`. `now` is the reading of
-- the clock that the test uses, `later` the one from which a lease runs.
use Prim.Native.Nat.{Ordering}
use Prim.Native.String.{compare}
use auto_scholar.Prelude.{
  ℕ, ◌+◌, ◌*◌, String, Bool, true, false, ◌&&◌, ◌||◌, Option, none, some, [], ◌∷◌, str_eq, ltb,
  ◌==◌, if◌then◌else◌,
}
use auto_scholar.Prelude.Table.{Table}
use auto_scholar.Prelude.Result.{pure, gets, transaction, ◌>>=◌, ◌>>◌}
use auto_scholar.Snapshot.{text, number}
use auto_scholar.Durable.Rows.{
  Status, queued, running, paused, pause_requested, cancel_requested, awaiting_approval,
  recovery_required, succeeded, failed, budget_exceeded, cancelled, is_leased, WorkflowJobRow,
}
use auto_scholar.Durable.Session.{Session, event, locked, write_job, fence, set_status, second}

abbrev pub status_text : Status → String
status_text queued = "queued"
status_text running = "running"
status_text paused = "paused"
status_text pause_requested = "pause_requested"
status_text cancel_requested = "cancel_requested"
status_text awaiting_approval = "awaiting_approval"
status_text recovery_required = "recovery_required"
status_text succeeded = "succeeded"
status_text failed = "failed"
status_text budget_exceeded = "budget_exceeded"
status_text cancelled = "cancelled"

abbrev pub is_queued : Status → Bool
is_queued queued = true
is_queued _ = false

abbrev pub lapsed : Option ℕ → ℕ → Bool
lapsed none now = false
lapsed (some until) now = ltb until now

abbrev chosen_task : Option String → String → Bool
chosen_task none id = true
chosen_task (some task_id) id = str_eq task_id id

-- The `where` clauses of the query of `claim`.
abbrev pub is_claimable : ℕ → Option String → WorkflowJobRow → Bool
is_claimable now task_id row =
    (is_queued row.status || (is_leased row.status && lapsed row.lease_until now))
    && chosen_task task_id row.task_id

abbrev pub text_before : String → String → Bool
text_before a b = elim (compare a b) [ Ordering.lt ↦ true | _ ↦ false ]

-- `order_by(created_at, task_id)`.
abbrev pub comes_before : WorkflowJobRow → WorkflowJobRow → Bool
comes_before a b =
    ltb a.created_at b.created_at
    || (a.created_at == b.created_at && text_before a.task_id b.task_id)

abbrev first_of_two : WorkflowJobRow → Option WorkflowJobRow → Option WorkflowJobRow
first_of_two row none = some row
first_of_two row (some best) = if comes_before best row then some best else some row

-- `order_by(...).limit(1)` over the rows that the query matches.
unfoldable pub first_claimable : ℕ → Option String → Table WorkflowJobRow → Option WorkflowJobRow
first_claimable now task_id [] = none
first_claimable now task_id ((_, row) ∷ rows) =
    let best = first_claimable now task_id rows in
    if is_claimable now task_id row then first_of_two row best else best

abbrev pub leased_to : String → ℕ → WorkflowJobRow → WorkflowJobRow
leased_to owner until row = record row {
  generation = row.generation + 1;
  owner = some owner;
  lease_until = some until;
}

-- `if prior == "queued": await self.status(...)`; the changed attributes are written in either case.
unfoldable pub take : WorkflowJobRow → Status → Session WorkflowJobRow
take row prior = if is_queued prior then set_status row running else (do write_job row; pure row)

unfoldable pub claim_row : String → ℕ → ℕ → Option WorkflowJobRow → Session (Option (String × ℕ))
unfolding take
claim_row owner lease_seconds later none = pure none
claim_row owner lease_seconds later (some row) = do
  let row' = leased_to owner (later + lease_seconds * second) row
  take row' row.status
  event row.task_id "claimed"
      (("generation", number row'.generation) ∷ ("previous", text (status_text row.status)) ∷ [])
  pure (some (row.task_id, row'.generation))

unfoldable pub claim : ℕ → ℕ → String → ℕ → Option String → Session (Option (String × ℕ))
claim now later owner lease_seconds task_id = transaction (do
  found ← gets (λ db. first_claimable now task_id db.jobs)
  claim_row owner lease_seconds later found)

unfoldable pub heartbeat : ℕ → ℕ → String → String → ℕ → ℕ → Session Status
heartbeat now later task_id owner generation lease_seconds = transaction (do
  row ← locked task_id
  fence row owner generation now
  write_job (record row { lease_until = some (later + lease_seconds * second) })
  pure row.status)

unfoldable pub quarantine : ℕ → String → String → ℕ → Session (Unit {0})
quarantine now task_id owner generation = transaction (do
  row ← locked task_id
  fence row owner generation now
  set_status
      (record row {
        error_code = some "checkpoint_integrity_failed";
        owner = none;
        lease_until = none;
      })
      recovery_required
  event task_id "checkpoint_rejected" [])
