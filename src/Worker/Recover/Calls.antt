-- ===== src/Worker/Recover/Calls.antt =====
-- orchestration/durable_repository.py, `reconcile_calls`: the calls that it takes away.
use Prim.Native.String.{◌++◌ as ◌++ₛ◌}
use auto_scholar.Prelude.{
  ℕ, ◌==◌, String, true, not, ◌||◌, ◌≡◌, refl, sym, subst, ap, ◌∙◌, Option, none, some, [], ◌∷◌,
  is_some, eq_iff, arith, inl, inr, Option-cases,
}
use auto_scholar.Prelude.Table.{Table, get}
use auto_scholar.Prelude.Result.{ok}
use auto_scholar.Prelude.Ensures.{
  Ensures, After, After-at, Ensures-bind, Ensures-pure, Ensures-gets, Ensures-weaken,
  Ensures-assume, Ensures-if, Ensures-refuse_if, Ensures-transaction,
}
use auto_scholar.Snapshot.{Value}
use auto_scholar.Durable.Rows.{WorkflowJobRow, ToolOperationRow, CoreToolCallRow, Db}
use auto_scholar.Durable.Session.{workflow_state_conflict, event, locked, write_job}
use auto_scholar.Durable.Save.{is_recovery}
use auto_scholar.Durable.Receipts.{
  Validators, ReceiptStatus, missing, conflict, uncertain, completed, is_completed_receipt,
  receipt_status,
}
use auto_scholar.Durable.Recovery.{
  is_parent, settles, settle_calls, call_payload, authorize_recovery, reconcile_held,
  reconcile_calls,
}
use auto_scholar.Durable.Integrity.Events.{event_missing, event_found}
use auto_scholar.Durable.Integrity.Guards.{locked_missing, locked_found}

module _ (v : Validators) (task_id : String) (calls : Table CoreToolCallRow)
    (operations : Table ToolOperationRow) where
  -- A pending call is known as one of this task and of that kind, and has a completed receipt.
  abbrev pub IsAnswered : String → String → Type 0
  IsAnswered operation_id kind =
      (call : CoreToolCallRow) × (get calls operation_id ≡ some call)
      × (call.parent_task_id ≡ some task_id)
      × (kind ≡ "mcp:" ++ₛ call.tool)
      × (receipt_status v operations call ≡ completed)

  abbrev pub AllAnswered : Table String → Type 0
  AllAnswered [] = Unit
  AllAnswered ((operation_id, kind) ∷ pending) = IsAnswered operation_id kind × AllAnswered pending

  abbrev Unchanged : Db → Type 0
  Unchanged db = (db.calls ≡ calls) × (db.operations ≡ operations)

  only_completed :
      (status : ReceiptStatus) → is_completed_receipt status ≡ true → status ≡ completed
  only_completed completed h = refl
  only_completed missing h = absurd (cc (h))
  only_completed conflict h = absurd (cc (h))
  only_completed uncertain h = absurd (cc (h))

  only_parent : (parent : Option String) → is_parent parent task_id ≡ true → parent ≡ some task_id
  only_parent none h = absurd (cc (h))
  only_parent (some parent) h = ap (λ (t : String). some t) ((eq_iff parent task_id).0 h)

  settles-IsAnswered :
      (operation_id kind : String) (call : Option CoreToolCallRow)
      → get calls operation_id ≡ call
      → settles v operations task_id kind call ≡ true
      → IsAnswered operation_id kind
  settles-IsAnswered operation_id kind none found h = absurd (cc (h))
  settles-IsAnswered operation_id kind (some call) found h = (
    call,
    found,
    only_parent call.parent_task_id (ground (arith, h)),
    (eq_iff kind ("mcp:" ++ₛ call.tool)).0 (ground (arith, h)),
    only_completed (receipt_status v operations call) (ground (arith, h)),
  )

  event-Unchanged :
      (id kind : String) (payload : Table Value)
      → Ensures Unchanged (event id kind payload) (λ _. Unchanged)
  event-Unchanged id kind payload = record {
    holds = λ db p. elim (Option-cases (get db.tasks id)) [
      | inl absent ↦ After-at (λ _. Unchanged) (event_missing id kind payload db absent) tt
      | inr (task, found) ↦ After-at (λ _. Unchanged) (event_found id kind payload db task found) p
    ];
  }

  settle_calls-AllAnswered :
      (pending : Table String)
      → Ensures Unchanged
          (settle_calls v task_id pending)
          (λ left db. Unchanged db × (left ≡ [] → AllAnswered pending))
  unfolding settle_calls
  settle_calls-AllAnswered [] = Ensures-pure [] (λ db p. (p, λ _. tt))
  settle_calls-AllAnswered ((operation_id, kind) ∷ pending) =
      Ensures-bind
        (Ensures-gets {Q = λ call db. Unchanged db × (get calls operation_id ≡ call)}
          (λ (db : Db). get db.calls operation_id)
          (λ db p. (p, ap (λ (t : Table CoreToolCallRow). get t operation_id) (sym p.0))))
        (λ call. Ensures-assume (λ found.
          Ensures-bind
            (Ensures-gets
              {Q = λ done db. Unchanged db × (settles v operations task_id kind call ≡ done)}
              (λ (db : Db). settles v db.operations task_id kind call)
              (λ db p.
                (p, ap (λ (t : Table ToolOperationRow). settles v t task_id kind call) (sym p.1))))
            (λ done. Ensures-assume (λ told.
              Ensures-if done
                (λ yes_it.
                  Ensures-bind
                    (event-Unchanged task_id "call_reconciled" (call_payload operation_id call))
                    (λ _.
                      Ensures-weaken (settle_calls-AllAnswered pending) (λ db p. p)
                        (λ left db (p, all). (
                          p,
                          λ e. (
                            settles-IsAnswered operation_id kind call found (told ∙ yes_it),
                            all e,
                          ),
                        ))))
                (λ no_it. Ensures-bind (settle_calls-AllAnswered pending) (λ left.
                  Ensures-pure ((operation_id, kind) ∷ left)
                    (λ db (p, all). (p, λ e. absurd (cc (e))))))))))

module _ (v : Validators) (now : ℕ) (task_id : String) (sequence : ℕ) (db : Db) where
  -- Every call that the job had pending was answered.
  abbrev pub WereAnswered : Type 0
  WereAnswered =
      (row : WorkflowJobRow) × (get db.jobs task_id ≡ some row)
      × AllAnswered v task_id db.calls db.operations row.pending_calls

  locked-row :
      Ensures (λ s. s ≡ db) (locked task_id) (λ row s. (s ≡ db) × (get db.jobs task_id ≡ some row))
  locked-row = record {
    holds = λ s e. elim (Option-cases (get s.jobs task_id)) [
      | inl absent ↦
          After-at (λ row s. (s ≡ db) × (get db.jobs task_id ≡ some row))
            (locked_missing task_id s absent) tt
      | inr (row, found) ↦
          After-at (λ row s. (s ≡ db) × (get db.jobs task_id ≡ some row))
            (locked_found task_id s row found)
            (e, ap (λ (x : Db). get x.jobs task_id) (sym e) ∙ found)
    ];
  }

  reconcile_held-WereAnswered :
      (row : WorkflowJobRow)
      → get db.jobs task_id ≡ some row
      → Ensures
          (λ s. s ≡ db)
          (reconcile_held v now task_id none (some sequence) row)
          (λ left _. left ≡ [] → WereAnswered)
  unfolding authorize_recovery write_job
  reconcile_held-WereAnswered row found =
      Ensures-bind
        (Ensures-refuse_if {P = λ s. s ≡ db}
          (not (is_recovery row.status)
            || is_some row.owner
            || not (row.checkpoint_sequence == sequence))
          workflow_state_conflict)
        (λ _.
          Ensures-bind
            (Ensures-weaken
              (settle_calls-AllAnswered v task_id db.calls db.operations row.pending_calls)
              (λ s (e, _). (ap (λ (x : Db). x.calls) e, ap (λ (x : Db). x.operations) e))
              (λ left s (p, all). λ e. (row, found, all e)))
            (λ left. Ensures-bind (write-kept left) (λ _. Ensures-pure left (λ s q. q))))
    where
      write-kept :
          (left : Table String)
          → Ensures
              (λ _. left ≡ [] → WereAnswered)
              (write_job (record row { pending_calls = left }))
              (λ _ _. left ≡ [] → WereAnswered)
      write-kept left = record { holds = λ s q. q }

  pub reconcile_calls-WereAnswered :
      (settled : Db)
      → reconcile_calls v now task_id none (some sequence) db ≡ (ok [], settled)
      → WereAnswered
  unfolding reconcile_calls
  reconcile_calls-WereAnswered settled h =
      subst (After (λ (left : Table String) (s : Db). left ≡ [] → WereAnswered)) h
        ((Ensures-transaction (
            Ensures-bind locked-row
              (λ row. Ensures-assume (λ found. reconcile_held-WereAnswered row found)))).holds
          db refl)
        refl
