-- ===== src/Durable/Submitted.antt =====
-- orchestration/durable_repository.py, `enqueue`: the idempotency key.
use auto_scholar.Prelude.{
  ℕ, String, ◌≡◌, refl, Bool, true, false, Option, none, some, [], ◌∷◌, arith, ap, sym, subst, ◌∙◌,
  str_eq, eq_iff, eq_refl, if◌then◌else◌, Option-cases, Bool-cases, inl, inr,
}
use auto_scholar.Prelude.Table.{Table, get, put}
use auto_scholar.Prelude.Result.{Result, ok, err, transaction}
use auto_scholar.Prelude.Ensures.{
  Ensures, After, After-at, Ensures-bind, Ensures-pure, Ensures-if, Ensures-raise,
  Ensures-transaction,
}
use auto_scholar.Snapshot.{Snapshot}
use auto_scholar.Durable.Rows.{WorkflowJobRow, AgentTaskRow, Db}
use auto_scholar.Durable.Session.{Error, idempotency_conflict, integrity_error, checkpoint}
use auto_scholar.Durable.Enqueue.{
  find_key, new_task, new_job, add_task, insert, submit_new, enqueue,
}
use auto_scholar.Durable.Integrity.Jobs.{advanced}
use auto_scholar.Durable.Integrity.Tasks.{with_task}
use auto_scholar.Durable.Integrity.Submissions.{resolve-Ensures}
use auto_scholar.Durable.Integrity.Tasks.{event-jobs}

-- The key stands for a request and its task.
pub record Holds (key request_hash id : String) (jobs : Table WorkflowJobRow) : Type 0 where
  pub row : WorkflowJobRow
  pub found : find_key key jobs ≡ some row
  pub same_request : row.request_sha256 ≡ request_hash
  pub same_task : row.task_id ≡ id

find_key-put :
    (key id : String) (row : WorkflowJobRow) (jobs : Table WorkflowJobRow)
    → row.idempotency_key ≡ key
    → find_key key jobs ≡ none
    → find_key key (put jobs id row) ≡ some row
unfolding find_key put
find_key-put key id row [] own absent = rw (own, eq_refl) refl
find_key-put key id row ((k, other) ∷ jobs) own absent =
    elim (Bool-cases (str_eq other.idempotency_key key)) [
      | inl taken ↦ absurd (ground (arith, absent, taken))
      | inr free ↦
          let rest : find_key key jobs ≡ none = rw free at absent in
          elim (Bool-cases (str_eq k id)) [
            | inl here ↦ rw (here, own, eq_refl) refl
            | inr there ↦ rw (there, free) (find_key-put key id row jobs own rest)
          ]
    ]

module _ (digest : Snapshot → String) (now : ℕ) (key request_hash : String) where
  add_task-jobs :
      (P : Table WorkflowJobRow → Type 0) (task : AgentTaskRow)
      → Ensures (λ (db : Db). P db.jobs) (add_task task) (λ _ db. P db.jobs)
  unfolding add_task
  add_task-jobs P task = record {
    holds = λ db p. elim (Option-cases (get db.tasks task.id)) [
      | inl missing ↦
          let out : add_task task db ≡ (ok tt, with_task task.id task db) =
            rw (missing, add_task) refl in
          After-at (λ _ (x : Db). P x.jobs) out p
      | inr (old, found) ↦
          let out : add_task task db ≡ (err integrity_error, db) = rw (found, add_task) refl in
          After-at (λ _ (x : Db). P x.jobs) out tt
    ];
  }

  checkpoint-Holds :
      (snapshot : Snapshot)
      → Ensures
          (λ (db : Db). find_key key db.jobs ≡ none)
          (checkpoint digest (new_job now snapshot key request_hash) snapshot)
          (λ _ db. Holds key request_hash snapshot.task_id db.jobs)
  unfolding checkpoint
  checkpoint-Holds snapshot = record {
    holds = λ db absent.
        let row = advanced digest (new_job now snapshot key request_hash) snapshot in
        record {
          row = row;
          found = find_key-put key snapshot.task_id row db.jobs refl absent;
          same_request = refl;
          same_task = refl;
        };
  }

  insert-Holds :
      (snapshot : Snapshot)
      → Ensures
          (λ (db : Db). find_key key db.jobs ≡ none)
          (insert digest now snapshot key request_hash)
          (λ out db. Holds key request_hash out.0 db.jobs)
  unfolding insert
  insert-Holds snapshot =
      Ensures-bind (add_task-jobs (λ jobs. find_key key jobs ≡ none) (new_task snapshot)) (λ _.
        Ensures-bind (checkpoint-Holds snapshot) (λ row.
          Ensures-bind
            (event-jobs (Holds key request_hash snapshot.task_id) snapshot.task_id "submitted" [])
            (λ _. Ensures-pure (snapshot.task_id, true) (λ db h. h))))

  submit_existing :
      (snapshot : Snapshot) (require_managed : Bool) (row : WorkflowJobRow)
      → Ensures
          (λ (db : Db). find_key key db.jobs ≡ some row)
          (submit_new digest now snapshot key request_hash require_managed (some row))
          (λ out db. Holds key request_hash out.0 db.jobs)
  unfolding submit_new
  submit_existing snapshot require_managed row =
      Ensures-if (str_eq row.request_sha256 request_hash)
        (λ same.
          Ensures-pure (row.task_id, false)
            (λ db found. record {
              row = row;
              found = found;
              same_request = ground (arith, same, eq_iff row.request_sha256 request_hash);
              same_task = refl;
            }))
        (λ other. Ensures-raise idempotency_conflict)

  enqueue-Holds :
      (snapshot : Snapshot) (require_managed : Bool) (db db' : Db) (id : String) (created : Bool)
      → enqueue digest now snapshot key request_hash require_managed db ≡ (ok (id, created), db')
      → Holds key request_hash id db'.jobs
  unfolding enqueue submit_new
  enqueue-Holds snapshot require_managed db db' id created h =
      elim (Option-cases (find_key key db.jobs)) [
        | inl absent ↦ subst (After Q) (sym (at none absent) ∙ h) (
            (Ensures-transaction (
                Ensures-bind
                  (resolve-Ensures {P = λ (x : Db). find_key key x.jobs ≡ none} require_managed
                    snapshot)
                  (λ resolved. insert-Holds resolved))).holds
              db absent)
        | inr (row, found) ↦
            subst (After Q) (sym (at (some row) found) ∙ h)
              ((Ensures-transaction (submit_existing snapshot require_managed row)).holds db found)
      ]
    where
      Q : String × Bool → Db → Type 0
      Q out x = Holds key request_hash out.0 x.jobs

      at :
          (existing : Option WorkflowJobRow)
          → find_key key db.jobs ≡ existing
          → enqueue digest now snapshot key request_hash require_managed db
            ≡ transaction
                (submit_new digest now snapshot key request_hash require_managed existing)
                db
      at existing e =
          ap
            (λ x.
              transaction (submit_new digest now snapshot key request_hash require_managed x) db)
            e

-- What a key that is in use answers.
abbrev pub key_answer : WorkflowJobRow → String → Result Error (String × Bool)
key_answer row request_hash =
    if str_eq row.request_sha256 request_hash
    then ok (row.task_id, false)
    else err idempotency_conflict

enqueue_found :
    (digest : Snapshot → String) (now : ℕ) (snapshot : Snapshot) (key request_hash : String)
    (require_managed : Bool) (db : Db) (row : WorkflowJobRow)
    → find_key key db.jobs ≡ some row
    → enqueue digest now snapshot key request_hash require_managed db
      ≡ (key_answer row request_hash, db)
unfolding enqueue submit_new
enqueue_found digest now snapshot key request_hash require_managed db row found =
    ap (λ x. transaction (submit_new digest now snapshot key request_hash require_managed x) db)
      found
    ∙ answer
  where
    answer :
        transaction (submit_new digest now snapshot key request_hash require_managed (some row)) db
        ≡ (key_answer row request_hash, db)
    answer = elim (Bool-cases (str_eq row.request_sha256 request_hash)) [
      | inl same ↦ rw same refl
      | inr other ↦ rw other refl
    ]

-- A submission is idempotent. Once `enqueue` has returned a task for a key, whether it made the task or
-- found it, a second call with that key, by anyone and for whatever snapshot, returns the same task as not
-- new if its request hash is the same, and is refused as a conflict otherwise; the database is unchanged.
pub enqueue-enqueue :
    (digest : Snapshot → String) (now : ℕ) (snapshot : Snapshot) (key request_hash : String)
    (require_managed : Bool) (db db' : Db) (id : String) (created : Bool)
    → enqueue digest now snapshot key request_hash require_managed db ≡ (ok (id, created), db')
    → (again : ℕ) (other : Snapshot) (other_hash : String) (other_managed : Bool)
    → enqueue digest again other key other_hash other_managed db'
      ≡ ((if str_eq request_hash other_hash then ok (id, false) else err idempotency_conflict), db')
enqueue-enqueue digest now snapshot key request_hash require_managed db db' id created h again other
      other_hash other_managed =
    let k =
      enqueue-Holds digest now key request_hash snapshot require_managed db db' id created h in
    enqueue_found digest again other key other_hash other_managed db' k.row k.found
    ∙ ap (λ (x : Result Error (String × Bool)). (x, db')) (rw (k.same_request, k.same_task) refl)
