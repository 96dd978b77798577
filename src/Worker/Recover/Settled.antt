-- ===== src/Worker/Recover/Settled.antt =====
-- orchestration/durable.py, `reconcile`: which workflows it gives back to the queue.
use auto_scholar.Prelude.{
  ℕ, ◌==◌, String, true, not, none, some, [], ◌∷◌, ◌≡◌, refl, inl, inr, ap, sym, ◌∙◌, subst,
  Bool-cases, Option-cases, arith, Option, false, is_some, is_empty,
}
use auto_scholar.Prelude.Table.{Table, get}
use auto_scholar.Prelude.Result.{Result, ok, err, Result-cases}
use auto_scholar.Snapshot.{Value, Snapshot}
use auto_scholar.Durable.Rows.{Status, queued, recovery_required, WorkflowJobRow, Db}
use auto_scholar.Durable.Session.{Session, Error, workflow_state_conflict, locked}
use auto_scholar.Prelude.Ensures.{
  Ensures, After, After-at, Ensures-bind, Ensures-refuse_if, Ensures-weaken, Ensures-transaction,
}
use auto_scholar.Durable.Integrity.Guards.{locked_missing, locked_found}
use auto_scholar.Durable.Recovery.{
  snapshot, reconcile_calls, queue_reconciled, is_reconciled, queue_held, queue_job,
}
use auto_scholar.Durable.Integrity.{IsIntegral}
use auto_scholar.Durable.Integrity.Recoveries.{
  reconcile_calls-IsIntegral, queue_reconciled-IsIntegral,
}
use auto_scholar.Worker.{Failure, Clock}
use auto_scholar.Worker.Attempts.{Worker}
use auto_scholar.Worker.Recover.{
  is_app_error, verify_unit, queue_answer, requeue, recovered_world, recover_unit, recover_calls,
  recover,
}
use auto_scholar.Worker.Recover.Calls.{WereAnswered, reconcile_calls-WereAnswered}
use auto_scholar.Worker.Recover.Evidence.{
  IsEnded, AreUnchanged, reconcile-IsEnded, verify_sources-AreUnchanged,
}
use auto_scholar.Durable.Save.{is_recovery}
use auto_scholar.Runs.{restore}
use auto_scholar.Worker.Integrity.Jobs.{snapshot-Reads}

-- What does not depend on the state stays true.
still : {A F : Type 0} (m : Session A) → Ensures (λ (db : Db). F) m (λ _ db. F)
still {A} {F} m = record { holds = λ db f. kept f (m db) }
  where
    kept : F → (out : Result Error A × Db) → After (λ _ db. F) out
    kept f (ok a, db) = f
    kept f (err e, db) = tt

locked-found :
    (id : String) (db : Db) → Ensures (λ s. s ≡ db) (locked id) (λ row s. get db.jobs id ≡ some row)
locked-found id db = record {
  holds = λ s e. elim (Option-cases (get s.jobs id)) [
    | inl missing ↦ After-at (λ row s. get db.jobs id ≡ some row) (locked_missing id s missing) tt
    | inr (row, found) ↦
        After-at (λ row s. get db.jobs id ≡ some row) (locked_found id s row found)
          (ap (λ (db : Db). get db.jobs id) (sym e) ∙ found)
  ];
}

-- A job that waits for its recovery at a checkpoint, with no owner and no open call.
pub record IsFree (task_id : String) (sequence : ℕ) (db : Db) : Type 0 where
  pub held : WorkflowJobRow
  pub stored : get db.jobs task_id ≡ some held
  pub waits : held.status ≡ recovery_required
  pub current : held.checkpoint_sequence ≡ sequence
  pub unowned : held.owner ≡ none
  pub idle : held.pending_calls ≡ []

only_recovery : (status : Status) → is_recovery status ≡ true → status ≡ recovery_required
only_recovery status h = ground arith

no_owner : (owner : Option String) → is_some owner ≡ false → owner ≡ none
no_owner none h = refl
no_owner (some o) h = absurd (cc (h))

no_call : (calls : Table String) → is_empty calls ≡ true → calls ≡ []
no_call [] h = refl
no_call (c ∷ calls) h = absurd (cc (h))

reconciled-IsFree :
    (task_id : String) (sequence : ℕ) (db : Db) (held : WorkflowJobRow)
    → get db.jobs task_id ≡ some held
    → is_reconciled held sequence ≡ true
    → IsFree task_id sequence db
reconciled-IsFree task_id sequence db held stored h = record {
  held = held;
  stored = stored;
  waits = only_recovery held.status (ground (arith, h));
  current = ground (arith, h);
  unowned = no_owner held.owner (ground (arith, h));
  idle = no_call held.pending_calls (ground (arith, h));
}

queue_held-IsFree :
    (task_id : String) (sequence : ℕ) (db : Db) (held : WorkflowJobRow)
    → Ensures
        (λ s. get db.jobs task_id ≡ some held)
        (queue_held task_id sequence held)
        (λ _ s. IsFree task_id sequence db)
queue_held-IsFree task_id sequence db held =
    Ensures-bind (Ensures-refuse_if (not (is_reconciled held sequence)) workflow_state_conflict)
      (λ _.
        Ensures-weaken (still (queue_job task_id sequence held))
          (λ s (found, free).
            reconciled-IsFree task_id sequence db held found (ground (arith, free)))
          (λ _ s f. f))

queue_reconciled-IsFree :
    (task_id : String) (sequence : ℕ) (db : Db)
    → Ensures (λ s. s ≡ db) (queue_reconciled task_id sequence) (λ _ s. IsFree task_id sequence db)
unfolding queue_reconciled
queue_reconciled-IsFree task_id sequence db =
    Ensures-transaction
      (Ensures-bind (locked-found task_id db) (λ held. queue_held-IsFree task_id sequence db held))

accepted-IsFree :
    (task_id : String) (sequence : ℕ) (db db' : Db)
    → queue_reconciled task_id sequence db ≡ (ok queued, db')
    → IsFree task_id sequence db
accepted-IsFree task_id sequence db db' h =
    subst (After (λ _ s. IsFree task_id sequence db)) h
      ((queue_reconciled-IsFree task_id sequence db).holds db refl)

queue_answer-queued :
    (pending left : Table String) (db' : Db) (out : Result Error Status × Db)
    → queue_answer pending out ≡ (ok (queued, left), db')
    → out ≡ (ok queued, db')
queue_answer-queued pending left db' (ok status, db) h = cc (h)
queue_answer-queued pending left db' (err e, db) h = absurd (cc (h))

requeue-queued :
    (task_id : String) (sequence : ℕ) (pending left : Table String)
    (out : Result Failure (Unit {0})) (db db' : Db)
    → requeue task_id sequence pending out db ≡ (ok (queued, left), db')
    → (out ≡ ok tt) × (queue_reconciled task_id sequence db ≡ (ok queued, db'))
unfolding requeue
requeue-queued task_id sequence pending left (err e) db db' h = elim (Bool-cases (is_app_error e)) [
  | inl caught ↦ absurd (cc (rw (caught, requeue) at h))
  | inr other ↦ absurd (cc (rw (other, requeue) at h))
]
requeue-queued task_id sequence pending left (ok _) db db' h =
    (refl, queue_answer-queued pending left db' (queue_reconciled task_id sequence db) h)

verify_unit-Ensures :
    (w : Worker) (version : ℕ) (active : Table Value)
    → Ensures
        (λ world. world.run.version ≡ version)
        (verify_unit w active)
        (λ _ after.
          IsEnded w.records version active × AreUnchanged w.files after.run after.run.sources)
unfolding verify_unit
verify_unit-Ensures w version active =
    Ensures-bind (reconcile-IsEnded w.files w.records active version)
      (λ _. verify_sources-AreUnchanged w.files)

returned :
    {A E S : Type 0} (Q : A → S → Type 0) {a : A} (out : Result E A × S)
    → After Q out
    → out.0 ≡ ok a
    → Q a out.1
returned Q {a} (ok b, s) q e = subst (λ x. Q x s) (same e) q
  where
    same : {A E : Type 0} {a b : A} → ◌≡◌ {A = Result E A} (ok b) (ok a) → b ≡ a
    same h = cc
returned Q (err e, s) q h = absurd (cc (h))

-- What a workflow that was given back to the queue had. The job and its snapshot were at the checkpoint
-- that the client asked for. Every call that was pending has a completed receipt, of this task and of the
-- call's kind. The records tell how the interrupted unit ended. Each source of the run, with what the
-- records added to it, is unchanged. After the receipts were read, the job waited for its recovery at that
-- checkpoint, with no owner and no pending call.
pub record IsSettled (w : Worker) (clock : Clock) (task_id : String) (sequence : ℕ) (db : Db)
    : Type 0 where
  pub s : Snapshot
  pub job : WorkflowJobRow
  pub read : (snapshot w.digest task_id db).0 ≡ ok (s, job)
  pub current : job.checkpoint_sequence ≡ sequence
  pub answered : WereAnswered w.validators clock.reconciled task_id sequence db
  pub ended : IsEnded w.records s.version job.active
  pub settled : Db
  pub unchanged :
      let run = (verify_unit w job.active (recovered_world clock s job settled)).1.run in
      AreUnchanged w.files run run.sources
  pub free : IsFree task_id sequence settled

module _ (w : Worker) (clock : Clock) (task_id : String) (sequence : ℕ) where
  recover_unit-queued :
      (s : Snapshot) (job : WorkflowJobRow) (pending left : Table String) (db db' : Db)
      → recover_unit w clock task_id sequence s job pending db ≡ (ok (queued, left), db')
      → (pending ≡ [])
        × ((verify_unit w job.active (recovered_world clock s job db)).0 ≡ ok tt)
        × (queue_reconciled task_id sequence db ≡ (ok queued, db'))
  unfolding recover_unit
  recover_unit-queued s job [] left db db' h =
      let answer = requeue-queued task_id sequence [] left _ db db' h in (refl, answer.0, answer.1)
  recover_unit-queued s job (call ∷ pending) left db db' h = absurd (cc (h))

  verified :
      (s : Snapshot) (job : WorkflowJobRow) (db : Db)
      → (verify_unit w job.active (recovered_world clock s job db)).0 ≡ ok tt
      → let run = (verify_unit w job.active (recovered_world clock s job db)).1.run in
        IsEnded w.records s.version job.active × AreUnchanged w.files run run.sources
  unfolding restore
  verified s job db h =
      returned
        (λ _ after.
          IsEnded w.records s.version job.active × AreUnchanged w.files after.run after.run.sources)
        (verify_unit w job.active (recovered_world clock s job db))
        ((verify_unit-Ensures w s.version job.active).holds (recovered_world clock s job db) refl) h

  no_pending :
      (pending : Table String) (out : Result Error (Table String) × Db)
      → out.0 ≡ ok pending
      → pending ≡ []
      → out ≡ (ok [], out.1)
  no_pending pending (o, s) h e = cc (h, e)

  recover_calls-IsSettled :
      (s : Snapshot) (job : WorkflowJobRow) (left : Table String) (db db' : Db)
      → (snapshot w.digest task_id db).0 ≡ ok (s, job)
      → job.checkpoint_sequence ≡ sequence
      → recover_calls w clock task_id sequence s job db ≡ (ok (queued, left), db')
      → IsIntegral db
      → IsIntegral db' × IsSettled w clock task_id sequence db
  unfolding recover_calls
  recover_calls-IsSettled s job left db db' read current h i =
      let out = reconcile_calls w.validators clock.reconciled task_id none (some sequence) db in
      let after : IsIntegral out.1 =
        reconcile_calls-IsIntegral w.validators clock.reconciled task_id none (some sequence) db
          i in
      elim (Result-cases out.0) [
        | inl (e, refused) ↦ absurd (cc (rw (refused, recover_calls) at h))
        | inr (pending, told) ↦
            let unit =
              recover_unit-queued s job pending left out.1 db' (rw (told, recover_calls) at h) in
            (
              subst IsIntegral (ap (λ (o : Result Error Status × Db). o.1) unit.2)
                  (queue_reconciled-IsIntegral task_id sequence out.1 after),
              record {
                s = s;
                job = job;
                read = read;
                current = current;
                answered =
                    reconcile_calls-WereAnswered w.validators clock.reconciled task_id sequence db
                      out.1 (no_pending pending out told unit.0);
                ended = (verified s job out.1 unit.1).0;
                unchanged = (verified s job out.1 unit.1).1;
                settled = out.1;
                free = accepted-IsFree task_id sequence out.1 db' unit.2;
              },
            )
      ]

-- Of the workflows that wait for their recovery, `reconcile` gives back to the queue only one at the
-- checkpoint that the client asked for, with no owner: every call it had pending is one of this task and
-- kind with a completed receipt; the records tell how its interrupted unit ended (exactly one attempt of
-- the step in this version of the plan, which succeeded or failed, or exactly one plan or review of this
-- version, or it was the writer); and every source of the run has the digest that its step recorded and
-- is still what the step's child task has. The database that it leaves is integral if it was so before.
pub recover-IsSettled :
    (w : Worker) (clock : Clock) (task_id : String) (sequence : ℕ) (left : Table String)
    (db db' : Db)
    → recover w clock task_id sequence db ≡ (ok (queued, left), db')
    → IsIntegral db
    → IsIntegral db' × IsSettled w clock task_id sequence db
unfolding recover
recover-IsSettled w clock task_id sequence left db db' h i =
    elim (Result-cases (snapshot w.digest task_id db).0) [
      | inl (e, broken) ↦ absurd (cc (rw (broken, recover) at h))
      | inr ((s, job), read) ↦ elim (Bool-cases (job.checkpoint_sequence == sequence)) [
        | inl same ↦
            recover_calls-IsSettled w clock task_id sequence s job left db db' read
              (ground (arith, same))
              (rw (read, snapshot-Reads w.digest task_id db, recover, same) at h) i
        | inr other ↦ absurd (cc (rw (read, recover, other) at h))
      ]
    ]
