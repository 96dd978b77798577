-- ===== src/Durable/Fencing.antt =====
-- orchestration/durable_repository.py: the fence. A worker whose lease has run out, or whose job another
-- worker has claimed since, changes nothing.
use auto_scholar.Prelude.{
  ℕ, ◌+◌, ◌*◌, String, ◌≡◌, ◌≢◌, refl, Bool, true, false, Option, none, some, [], ap, sym, ◌∙◌,
  Bool-cases, inl, inr,
}
use auto_scholar.Prelude.Table.{Table, get}
use auto_scholar.Prelude.Result.{
  Result, ok, err, pure, transaction, ◌>>=◌, ◌>>◌, bind_ok, bind_err, transaction_err,
}
use auto_scholar.Snapshot.{Value, Snapshot}
use auto_scholar.Durable.Rows.{Status, recovery_required, WorkflowJobRow, Db}
use auto_scholar.Durable.Session.{
  Session, Error, lease_lost, event, locked, fence, holds_lease, write_job, set_status, second,
}
use auto_scholar.Durable.Lease.{heartbeat, quarantine}
use auto_scholar.Durable.Work.{begin, begin_held, journal, write_call}
use auto_scholar.Durable.Save.{save, save_held, saved_status}
use auto_scholar.Durable.Receipts.{Validators}
use auto_scholar.Durable.Recovery.{settle_calls, reconcile_calls}
use auto_scholar.Durable.Integrity.Guards.{locked_found}

-- What a worker asks for the job that it believes to hold.
pub data WorkerCall : Type 0 where
  beats : ℕ → ℕ → WorkerCall
  quarantines : WorkerCall
  begins : Table Value → WorkerCall
  journals : String → String → Bool → Table ℕ → ℕ → WorkerCall
  saves : (Snapshot → String) → Snapshot → Table ℕ → ℕ → Status → Option String → WorkerCall
  reconciles : Validators → Option ℕ → WorkerCall

unfoldable pub perform : WorkerCall → ℕ → String → String → ℕ → Session (Unit {0})
perform (beats later seconds) now id owner generation = do
  heartbeat now later id owner generation seconds
  pure tt
perform quarantines now id owner generation = quarantine now id owner generation
perform (begins active) now id owner generation = do begin now id owner generation active; pure tt
perform (journals call_id kind starting usage elapsed) now id owner generation =
    journal now id owner generation call_id kind starting usage elapsed
perform (saves digest snapshot usage elapsed status code) now id owner generation =
    save digest now id owner generation snapshot usage elapsed status code
perform (reconciles v sequence) now id owner generation = do
  reconcile_calls v now id (some (owner, generation)) sequence
  pure tt

module _ (now : ℕ) (id owner : String) (generation : ℕ) (db : Db) (row : WorkflowJobRow) where
  fence_lost :
      holds_lease row owner generation now ≡ false
      → fence row owner generation now db ≡ (err lease_lost, db)
  unfolding fence
  fence_lost lost = rw lost refl

  refused :
      {A : Type 0} (body : WorkflowJobRow → Session A)
      → get db.jobs id ≡ some row
      → holds_lease row owner generation now ≡ false
      → transaction (do row ← locked id; fence row owner generation now; body row) db
        ≡ (err lease_lost, db)
  refused body found lost =
      transaction_err (do row ← locked id; fence row owner generation now; body row)
        (bind_ok (locked id) (λ r. do fence r owner generation now; body r)
            (locked_found id db row found)
          ∙ bind_err (fence row owner generation now) (λ _. body row) (fence_lost lost))

  pub perform_refused :
      (call : WorkerCall)
      → get db.jobs id ≡ some row
      → holds_lease row owner generation now ≡ false
      → perform call now id owner generation db ≡ (err lease_lost, db)
  unfolding perform heartbeat quarantine begin journal save reconcile_calls
  perform_refused (beats later seconds) found lost =
      bind_err (heartbeat now later id owner generation seconds) (λ _. pure tt)
        (refused
          (λ r. do
            write_job (record r { lease_until = some (later + seconds * second) })
            pure r.status)
          found lost)
  perform_refused quarantines found lost =
      refused
        (λ r. do
          set_status
              (record r {
                error_code = some "checkpoint_integrity_failed";
                owner = none;
                lease_until = none;
              })
              recovery_required
          event id "checkpoint_rejected" [])
        found lost
  perform_refused (begins active) found lost =
      bind_err (begin now id owner generation active) (λ _. pure tt)
        (refused (begin_held now active) found lost)
  perform_refused (journals call_id kind starting usage elapsed) found lost =
      refused (write_call id call_id kind starting usage elapsed) found lost
  perform_refused (saves digest snapshot usage elapsed status code) found lost =
      refused (λ r. save_held digest id snapshot usage elapsed (saved_status r status code) r) found
        lost
  perform_refused (reconciles v sequence) found lost =
      bind_err (reconcile_calls v now id (some (owner, generation)) sequence) (λ _. pure tt)
        (refused
          (λ r. do
            left ← settle_calls v id r.pending_calls
            write_job (record r { pending_calls = left })
            pure left)
          found lost)

  held :
      holds_lease row owner generation now ≡ true → fence row owner generation now db ≡ (ok tt, db)
  unfolding fence
  held h = rw h refl

  -- An operation that returns had the lease, and is what its body does.
  pub fenced_ok :
      {A : Type 0} (body : WorkflowJobRow → Session A) {a : A} {db' : Db}
      → get db.jobs id ≡ some row
      → transaction (do r ← locked id; fence r owner generation now; body r) db ≡ (ok a, db')
      → (holds_lease row owner generation now ≡ true) × (transaction (body row) db ≡ (ok a, db'))
  fenced_ok {A = A} body {a} {db'} found h =
      elim (Bool-cases (holds_lease row owner generation now)) [
        | inr lost ↦ absurd (apart (sym (refused body found lost) ∙ h))
        | inl holds ↦ (
          holds,
          sym (
                ap
                  (λ (out : Result Error A × Db). elim out.0 as (λ _. Result Error A × Db) [
                    | ok x ↦ (Result.ok x, out.1)
                    | err e ↦ (err e, db)
                  ])
                  (bind_ok (locked id) (λ r. do fence r owner generation now; body r)
                      (locked_found id db row found)
                    ∙ bind_ok (fence row owner generation now) (λ _. body row) (held holds)))
              ∙ h,
        )
      ]
    where
      apart : ◌≢◌ {A = Result Error A × Db} (err lease_lost, db) (ok a, db')
      apart e = cc

  -- An operation under the lease that raises leaves the database as it was.
  pub fenced_err :
      {A : Type 0} (body : WorkflowJobRow → Session A) {e : Error} {db' : Db}
      → get db.jobs id ≡ some row
      → holds_lease row owner generation now ≡ true
      → body row db ≡ (err e, db')
      → transaction (do r ← locked id; fence r owner generation now; body r) db ≡ (err e, db)
  fenced_err body found holds failed =
      transaction_err (do r ← locked id; fence r owner generation now; body r)
        (bind_ok (locked id) (λ r. do fence r owner generation now; body r)
            (locked_found id db row found)
          ∙ bind_ok (fence row owner generation now) (λ _. body row) (held holds)
          ∙ failed)
