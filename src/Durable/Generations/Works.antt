-- ===== src/Durable/Generations/Works.antt =====
-- orchestration/durable_repository.py: no call of a worker lowers a generation.
use auto_scholar.Prelude.{
  ℕ, ◌+◌, ◌*◌, ◌≤◌, String, ◌≡◌, refl, Bool, true, false, not, ◌||◌, leb, Option, none, some, [],
  ◌∷◌, is_empty, str_eq, arith, sym, subst, inl, inr, Option-cases, if◌then◌else◌,
}
use auto_scholar.Prelude.Table.{Table, get}
use auto_scholar.Prelude.Result.{Result, ok, err, modify}
use auto_scholar.Prelude.Ensures.{
  Ensures, After-at, Ensures-bind, Ensures-pure, Ensures-raise, Ensures-gets, Ensures-assume,
  Ensures-if,
}
use auto_scholar.Snapshot.{Value, text, number, Snapshot}
use auto_scholar.Durable.Rows.{
  Status, running, recovery_required, WorkflowJobRow, WorkflowApprovalRow, consumed, Db,
}
use auto_scholar.Durable.Session.{Error, operation_uncertain, approval_required, second}
use auto_scholar.Durable.Lease.{
  claim, claim_row, first_claimable, is_queued, take, leased_to, status_text, heartbeat, quarantine,
}
use auto_scholar.Durable.Work.{
  begin, begin_held, start_unit, check_approval, use_approval, mark_approval, find_approval,
  is_approved, operation_hash, is_running, journal, journal_calls, reject_locally, start_call,
  finish_call, merge_spent, write_call, journal_event, journal_payload, lift, pops,
  is_cancel_requested,
}
use auto_scholar.Durable.Save.{save, save_held, saved_status, released, write_task, stage_text}
use auto_scholar.Durable.Integrity.Leases.{claimable_stored}
use auto_scholar.Durable.Integrity.Saves.{write_task_found, write_task_missing}
use auto_scholar.Durable.Generations.{
  Risen, Fits, Ready, write_job-Risen, set_status-Risen, checkpoint-Risen, event-Risen,
  refuse-Risen, stored-Fits, transaction-Risen, fenced-Risen,
}

-- The row that another one becomes, with its task and its generation.
abbrev SameJob : WorkflowJobRow → Result Error WorkflowJobRow → Type 0
SameJob row (ok row') = (row'.task_id ≡ row.task_id) × (row'.generation ≡ row.generation)
SameJob row (err e) = Unit

either-SameJob :
    (row : WorkflowJobRow) (test : Bool) (a b : Result Error WorkflowJobRow)
    → SameJob row a
    → SameJob row b
    → SameJob row (if test then a else b)
either-SameJob row true a b p q = p
either-SameJob row false a b p q = q

journal_calls-SameJob :
    (call_id kind : String) (starting : Bool) (row : WorkflowJobRow)
    → SameJob row (journal_calls call_id kind starting row)
unfolding journal_calls reject_locally start_call finish_call
journal_calls-SameJob call_id kind starting row =
    either-SameJob row (str_eq kind "budget") _ _ (refl, refl)
      (either-SameJob row (str_eq kind "llm_local_rejected") _ _
        (either-SameJob row starting _ _ tt (
          either-SameJob row (str_eq call_id "") _ _ (refl, refl)
            (either-SameJob row (pops row.pending_calls call_id "llm") _ _ (refl, refl) tt)))
        (either-SameJob row starting _ _
          (either-SameJob row (not (is_empty row.pending_calls)) _ _ tt
            (either-SameJob row (is_cancel_requested row.status) _ _ tt (refl, refl)))
          (either-SameJob row (pops row.pending_calls call_id kind) _ _ (refl, refl) tt)))

module _ (id : String) (g : ℕ) where
  same-Fits :
      (row row' : WorkflowJobRow)
      → row'.task_id ≡ row.task_id
      → row'.generation ≡ row.generation
      → Fits id g row
      → Fits id g row'
  same-Fits row row' key kept fits e = subst (λ n. g ≤ n) (sym kept) (fits (cc (key, e)))

  claimed-Fits :
      (owner : String) (until : ℕ) (row : WorkflowJobRow)
      → Fits id g row
      → Fits id g (leased_to owner until row)
  claimed-Fits owner until row fits e = omega (arith, fits e)

  take-Risen :
      (row : WorkflowJobRow) (prior : Status)
      → Fits id g row
      → Ensures (Risen id g) (take row prior) (λ _. Risen id g)
  unfolding take
  take-Risen row prior fits =
      Ensures-if (is_queued prior) (λ _. set_status-Risen id g row running fits)
        (λ _. Ensures-bind (write_job-Risen id g row fits) (λ _. Ensures-pure row (λ db r. r)))

  claim_row-Risen :
      (owner : String) (lease_seconds later : ℕ) (row : WorkflowJobRow)
      → Fits id g row
      → Ensures (Risen id g) (claim_row owner lease_seconds later (some row)) (λ _. Risen id g)
  unfolding claim_row
  claim_row-Risen owner lease_seconds later row fits =
      let until = later + lease_seconds * second in
      Ensures-bind
        (take-Risen (leased_to owner until row) row.status (claimed-Fits owner until row fits))
        (λ _.
          Ensures-bind (event-Risen id g row.task_id "claimed" _) (λ _. Ensures-pure _ (λ db r. r)))

  chosen-Risen :
      (now : ℕ) (task_id : Option String) (owner : String) (lease_seconds later : ℕ)
      (found : Option WorkflowJobRow)
      → Ensures
          (λ db. Ready id g db × (first_claimable now task_id db.jobs ≡ found))
          (claim_row owner lease_seconds later found)
          (λ _. Risen id g)
  chosen-Risen now task_id owner lease_seconds later none =
      unfold claim_row in Ensures-pure none (λ db p. p.0.1)
  chosen-Risen now task_id owner lease_seconds later (some row) = record {
    holds = λ db ((w, r), found).
        let (k, here, fits) = claimable_stored now task_id db.jobs row w.unique found in
        (claim_row-Risen owner lease_seconds later row (stored-Fits id g k row db w r here)).holds
          db r;
  }

  pub claim-Risen :
      (now later : ℕ) (owner : String) (lease_seconds : ℕ) (task_id : Option String) (db : Db)
      → Ready id g db
      → Risen id g (claim now later owner lease_seconds task_id db).1
  unfolding claim
  claim-Risen now later owner lease_seconds task_id = transaction-Risen id g _ (
      Ensures-bind
        (Ensures-gets
          {Q = λ found db. Ready id g db × (first_claimable now task_id db.jobs ≡ found)}
          (λ (db : Db). first_claimable now task_id db.jobs) (λ db p. (p, refl)))
        (λ found. chosen-Risen now task_id owner lease_seconds later found))

  pub heartbeat-Risen :
      (now later : ℕ) (task_id owner : String) (generation lease_seconds : ℕ) (db : Db)
      → Ready id g db
      → Risen id g (heartbeat now later task_id owner generation lease_seconds db).1
  unfolding heartbeat
  heartbeat-Risen now later task_id owner generation lease_seconds =
      fenced-Risen id g now task_id owner generation _ (λ row fits.
        Ensures-bind
          (write_job-Risen id g (record row { lease_until = some (later + lease_seconds * second) })
            fits)
          (λ _. Ensures-pure row.status (λ db r. r)))

  pub quarantine-Risen :
      (now : ℕ) (task_id owner : String) (generation : ℕ) (db : Db)
      → Ready id g db
      → Risen id g (quarantine now task_id owner generation db).1
  unfolding quarantine
  quarantine-Risen now task_id owner generation =
      fenced-Risen id g now task_id owner generation _ (λ row fits.
        Ensures-bind
          (set_status-Risen id g
            (record row {
              error_code = some "checkpoint_integrity_failed";
              owner = none;
              lease_until = none;
            })
            recovery_required fits)
          (λ _. event-Risen id g task_id "checkpoint_rejected" []))

  mark-Risen :
      (approval : WorkflowApprovalRow)
      → Ensures {E = Error}
          (Risen id g)
          (modify (λ (db : Db). record db {
            approvals = mark_approval approval.id consumed db.approvals;
          }))
          (λ _. Risen id g)
  mark-Risen approval = record { holds = λ db r. r }

  use_approval-Risen :
      (now : ℕ) (key : String) (found : Option WorkflowApprovalRow)
      → Ensures (Risen id g) (use_approval now key found) (λ _. Risen id g)
  unfolding use_approval
  use_approval-Risen now key none = Ensures-raise approval_required
  use_approval-Risen now key (some approval) =
      Ensures-bind
        (refuse-Risen id g (not (is_approved approval.status) || leb approval.expires_at now)
          approval_required)
        (λ _. Ensures-bind (mark-Risen approval) (λ _.
          event-Risen id g key "approval_consumed" (("approval_id", number approval.id) ∷ [])))

  check_approval-Risen :
      (now : ℕ) (key : String) (named : Option String)
      → Ensures (Risen id g) (check_approval now key named) (λ _. Risen id g)
  unfolding check_approval
  check_approval-Risen now key none = Ensures-pure tt (λ db r. r)
  check_approval-Risen now key (some hash) =
      Ensures-bind
        (Ensures-gets {Q = λ _. Risen id g} (λ (db : Db). find_approval key hash db.approvals)
          (λ db r. r))
        (λ found. use_approval-Risen now key found)

  begin_held-Risen :
      (now : ℕ) (active : Table Value) (row : WorkflowJobRow)
      → Fits id g row
      → Ensures (Risen id g) (begin_held now active row) (λ _. Risen id g)
  unfolding start_unit
  begin_held-Risen now active row fits =
      Ensures-bind
        (refuse-Risen id g (not (is_empty row.active) || not (is_empty row.pending_calls))
          operation_uncertain)
        (λ _.
          Ensures-bind
            (Ensures-if (is_running row.status)
              (λ _.
                Ensures-bind (check_approval-Risen now row.task_id (operation_hash active)) (λ _.
                  Ensures-bind (write_job-Risen id g (record row { active = active }) fits)
                    (λ _. event-Risen id g row.task_id "unit_started" active)))
              (λ _. Ensures-pure tt (λ db r. r)))
            (λ _. Ensures-pure row.status (λ db r. r)))

  pub begin-Risen :
      (now : ℕ) (task_id owner : String) (generation : ℕ) (active : Table Value) (db : Db)
      → Ready id g db
      → Risen id g (begin now task_id owner generation active db).1
  unfolding begin
  begin-Risen now task_id owner generation active =
      fenced-Risen id g now task_id owner generation (begin_held now active)
        (λ row fits. begin_held-Risen now active row fits)

  lifted-SameJob :
      (row : WorkflowJobRow) (out : Result Error WorkflowJobRow)
      → SameJob row out
      → Ensures (Risen id g) (lift out) (λ row' db. Risen id g db × SameJob row (ok row'))
  unfolding lift
  lifted-SameJob row (ok row') same = record { holds = λ db r. (r, same) }
  lifted-SameJob row (err e) same = record { holds = λ db r. tt }

  write_call-Risen :
      (task_id call_id kind : String) (starting : Bool) (usage : Table ℕ) (elapsed : ℕ)
      (row : WorkflowJobRow)
      → Fits id g row
      → Ensures
          (Risen id g)
          (write_call task_id call_id kind starting usage elapsed row)
          (λ _. Risen id g)
  unfolding merge_spent
  write_call-Risen task_id call_id kind starting usage elapsed row fits =
      Ensures-bind (lifted-SameJob row _ (journal_calls-SameJob call_id kind starting row)) (λ row'.
        Ensures-assume (λ (key, number_eq).
          Ensures-bind
            (write_job-Risen id g (merge_spent usage elapsed row')
              (same-Fits row (merge_spent usage elapsed row') key number_eq fits))
            (λ _.
              event-Risen id g task_id (journal_event kind starting)
                (journal_payload call_id kind))))

  pub journal-Risen :
      (now : ℕ) (task_id owner : String) (generation : ℕ) (call_id kind : String) (starting : Bool)
      (usage : Table ℕ) (elapsed : ℕ) (db : Db)
      → Ready id g db
      → Risen id g (journal now task_id owner generation call_id kind starting usage elapsed db).1
  unfolding journal
  journal-Risen now task_id owner generation call_id kind starting usage elapsed =
      fenced-Risen id g now task_id owner generation
        (write_call task_id call_id kind starting usage elapsed)
        (λ row fits. write_call-Risen task_id call_id kind starting usage elapsed row fits)

  write_task-Risen :
      (key : String) (snapshot : Snapshot) (status : Status)
      → Ensures (Risen id g) (write_task key snapshot status) (λ _. Risen id g)
  write_task-Risen key snapshot status = record {
    holds = λ db r. elim (Option-cases (get db.tasks key)) [
      | inl missing ↦
          After-at (λ _. Risen id g) (write_task_missing key snapshot status db missing) tt
      | inr (task, found) ↦
          After-at (λ _. Risen id g) (write_task_found key snapshot status db task found) r
    ];
  }

  save_held-Risen :
      (digest : Snapshot → String) (task_id : String) (snapshot : Snapshot) (usage : Table ℕ)
      (elapsed : ℕ) (decided : Status × Option String) (row : WorkflowJobRow)
      → Fits id g row
      → Ensures
          (Risen id g)
          (save_held digest task_id snapshot usage elapsed decided row)
          (λ _. Risen id g)
  unfolding merge_spent
  save_held-Risen digest task_id snapshot usage elapsed decided row fits =
      Ensures-bind
        (checkpoint-Risen id g digest
          (record (merge_spent usage elapsed row) { error_code = decided.1 }) snapshot fits)
        (λ row'. Ensures-assume (λ fits'.
          Ensures-bind (set_status-Risen id g (released decided.0 row') decided.0 fits') (λ _.
            Ensures-bind (write_task-Risen task_id snapshot decided.0)
              (λ _. event-Risen id g task_id "checkpoint_saved" (payload row')))))
    where
      payload : WorkflowJobRow → Table Value
      payload row' =
          ("sequence", number row'.checkpoint_sequence)
          ∷ ("stage", text (stage_text snapshot.stage))
          ∷ ("status", text (status_text decided.0))
          ∷ []

  pub save-Risen :
      (digest : Snapshot → String) (now : ℕ) (task_id owner : String) (generation : ℕ)
      (snapshot : Snapshot) (usage : Table ℕ) (elapsed : ℕ) (status : Status)
      (error_code : Option String) (db : Db)
      → Ready id g db
      → Risen id g
          (save digest now task_id owner generation snapshot usage elapsed status error_code db).1
  unfolding save
  save-Risen digest now task_id owner generation snapshot usage elapsed status error_code =
      fenced-Risen id g now task_id owner generation _ (λ row fits.
        save_held-Risen digest task_id snapshot usage elapsed (saved_status row status error_code)
          row fits)
