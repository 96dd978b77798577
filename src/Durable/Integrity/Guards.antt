-- ===== src/Durable/Integrity/Guards.antt =====
-- orchestration/durable_repository.py, `locked` and `fence`: what an operation may rely on.
use auto_scholar.Prelude.{
  ℕ, String, ◌≡◌, refl, true, none, some, Option-cases, Bool-cases, inl, inr,
}
use auto_scholar.Prelude.Table.{Table, get}
use auto_scholar.Prelude.Result.{ok, err, pure, transaction, ◌>>=◌, ◌>>◌}
use auto_scholar.Prelude.Ensures.{
  Ensures, After-at, Ensures-bind, Ensures-weaken, Ensures-pure, Keeps, Keeps-transaction,
}
use auto_scholar.Snapshot.{Value}
use auto_scholar.Durable.Rows.{WorkflowJobRow, Db}
use auto_scholar.Durable.Session.{
  Session, event, locked, fence, holds_lease, lease_lost, workflow_not_found,
}
use auto_scholar.Durable.Integrity.Events.{event-IsWritable}
use auto_scholar.Durable.Integrity.{IsSound, IsIntegral, IsWritable}

pub locked_missing :
    (id : String) (db : Db) → get db.jobs id ≡ none → locked id db ≡ (err workflow_not_found, db)
unfolding locked
locked_missing id db h = rw (h, locked) refl

pub locked_found :
    (id : String) (db : Db) (row : WorkflowJobRow)
    → get db.jobs id ≡ some row
    → locked id db ≡ (ok row, db)
unfolding locked
locked_found id db row h = rw (h, locked) refl

abbrev pub Locked : String → WorkflowJobRow → Db → Type 0
Locked id row db = IsWritable row db × IsSound row × (row.task_id ≡ id)

pub stored-IsWritable :
    (id : String) (row : WorkflowJobRow) (db : Db)
    → IsIntegral db
    → get db.jobs id ≡ some row
    → IsWritable row db
stored-IsWritable id row db w found =
    let e = w.keyed id row found in
    record { integral = w; numbered = rw (e, found) refl; has_task = rw e (w.owned id row found) }

pub locked-IsWritable : (id : String) → Ensures IsIntegral (locked id) (Locked id)
locked-IsWritable id = record {
  holds = λ db w. elim (Option-cases (get db.jobs id)) [
    | inl missing ↦ After-at (Locked id) (locked_missing id db missing) tt
    | inr (row, found) ↦
        After-at (Locked id) (locked_found id db row found)
          (stored-IsWritable id row db w found, w.sound id row found, w.keyed id row found)
  ];
}

pub fence-Ensures :
    {P : Db → Type 0} (row : WorkflowJobRow) (owner : String) (generation now : ℕ)
    → Ensures P
        (fence row owner generation now)
        (λ _ db. P db × (holds_lease row owner generation now ≡ true))
unfolding fence
fence-Ensures {P} row owner generation now = record {
  holds = λ db p. elim (Bool-cases (holds_lease row owner generation now)) [
    | inl held ↦
        let kept : fence row owner generation now db ≡ (ok tt, db) = rw held refl in
        After-at (λ _ db. P db × (holds_lease row owner generation now ≡ true)) kept (p, held)
    | inr lost ↦
        let kept : fence row owner generation now db ≡ (err lease_lost, db) = rw lost refl in
        After-at (λ _ db. P db × (holds_lease row owner generation now ≡ true)) kept tt
  ];
}

-- An operation that locks a job, and one that a worker's fence guards as well.
pub locked_update :
    {A : Type 0} (id : String) (body : WorkflowJobRow → Session A)
    → ((row : WorkflowJobRow)
        → IsSound row
        → row.task_id ≡ id
        → Ensures (IsWritable row) (body row) (λ _. IsIntegral))
    → Keeps IsIntegral (transaction (do row ← locked id; body row))
locked_update id body h = Keeps-transaction _ (
    Ensures-bind (locked-IsWritable id)
      (λ row. record { holds = λ db (w, s, e). (h row s e).holds db w }))

pub fenced_update :
    {A : Type 0} (now : ℕ) (id owner : String) (generation : ℕ) (body : WorkflowJobRow → Session A)
    → ((row : WorkflowJobRow)
        → IsSound row
        → row.task_id ≡ id
        → Ensures (IsWritable row) (body row) (λ _. IsIntegral))
    → Keeps IsIntegral (transaction (do row ← locked id; fence row owner generation now; body row))
fenced_update now id owner generation body h =
    locked_update id (λ row. do fence row owner generation now; body row)
      (λ row s e.
        Ensures-bind (fence-Ensures row owner generation now)
          (λ _. Ensures-weaken (h row s e) (λ db (w, held). w) (λ a db q. q)))

-- A row with other attributes may be written where the row may.
pub changed :
    (row row' : WorkflowJobRow) (db : Db)
    → row'.task_id ≡ row.task_id
    → row'.checkpoint_sequence ≡ row.checkpoint_sequence
    → IsWritable row db
    → IsWritable row' db
changed row row' db key number w = record {
  integral = w.integral;
  numbered = rw (key, number) w.numbered;
  has_task = rw key w.has_task;
}

pub change :
    {A : Type 0} {m : Session A} {Q : A → Db → Type 0} (row row' : WorkflowJobRow)
    → row'.task_id ≡ row.task_id
    → row'.checkpoint_sequence ≡ row.checkpoint_sequence
    → Ensures (IsWritable row') m Q
    → Ensures (IsWritable row) m Q
change row row' key number h =
    Ensures-weaken h (λ db w. changed row row' db key number w) (λ a db q. q)

-- The event at the end of an operation.
pub conclude :
    {A : Type 0} (row : WorkflowJobRow) (id kind : String) (payload : Table Value) (a : A)
    → Ensures (IsWritable row) (do event id kind payload; pure a) (λ _. IsIntegral)
conclude row id kind payload a =
    Ensures-bind (event-IsWritable row id kind payload) (λ _. Ensures-pure a (λ db w. w.integral))
