-- ===== src/Durable/Generations.antt =====
-- orchestration/durable_repository.py: the generation of a job, which no operation lowers.
pub mod Works
pub mod Clients
pub mod Since
use auto_scholar.Prelude.{
  ℕ, ◌≤◌, String, ◌≡◌, refl, true, Bool, ◌+◌, ap, sym, subst, ◌∙◌, none, some, Option, str_eq,
  eq_iff, arith, inl, inr, Bool-cases, Option-cases,
}
use auto_scholar.Prelude.Table.{Table, get, put, get-put, get-put_ne, get-put_self}
use auto_scholar.Prelude.Result.{Result, ok, err, transaction, refuse_if, ◌>>=◌, ◌>>◌}
use auto_scholar.Prelude.Ensures.{
  Ensures, After, After-at, Ensures-bind, Ensures-assume, Ensures-weaken, Ensures-refuse_if,
}
use auto_scholar.Snapshot.{Value, Snapshot}
use auto_scholar.Durable.Rows.{Status, WorkflowJobRow, Db}
use auto_scholar.Durable.Session.{
  Session, Error, event, locked, fence, write_job, set_status, checkpoint,
}
use auto_scholar.Durable.Integrity.{IsIntegral}
use auto_scholar.Durable.Integrity.Guards.{locked_missing, locked_found, fence-Ensures}
use auto_scholar.Durable.Integrity.Tasks.{set_status_found, set_status_missing, event-jobs}

-- The generation of the job `id` is at least `g`.
module _ (id : String) (g : ℕ) where
  abbrev pub HasRisen : Table WorkflowJobRow → Type 0
  HasRisen jobs = (row : WorkflowJobRow) × (get jobs id ≡ some row) × (g ≤ row.generation)

  abbrev pub Risen : Db → Type 0
  Risen db = HasRisen db.jobs

  -- A row that may be written.
  abbrev pub Fits : WorkflowJobRow → Type 0
  Fits row = row.task_id ≡ id → g ≤ row.generation

  put-Risen :
      (jobs : Table WorkflowJobRow) (row : WorkflowJobRow)
      → Fits row
      → HasRisen jobs
      → HasRisen (put jobs row.task_id row)
  put-Risen jobs row fits (stored, found, risen) = elim (Bool-cases (str_eq row.task_id id)) [
    | inl same ↦
        let e : row.task_id ≡ id = (eq_iff row.task_id id).0 same in
        (
          row,
          subst (λ k. get (put jobs k row) id ≡ some row) (sym e) (get-put_self jobs id row),
          fits e,
        )
    | inr other ↦ (stored, get-put_ne jobs row.task_id id row other ∙ found, risen)
  ]

  pub write_job-Risen :
      (row : WorkflowJobRow) → Fits row → Ensures Risen (write_job row) (λ _. Risen)
  unfolding write_job
  write_job-Risen row fits = record { holds = λ db r. put-Risen db.jobs row fits r }

  pub set_status-Risen :
      (row : WorkflowJobRow) (status : Status)
      → Fits row
      → Ensures Risen (set_status row status) (λ _. Risen)
  set_status-Risen row status fits = record {
    holds = λ db r. elim (Option-cases (get db.tasks row.task_id)) [
      | inl missing ↦ After-at (λ _. Risen) (set_status_missing row status db missing) tt
      | inr (task, found) ↦
          After-at (λ _. Risen) (set_status_found row status db task found)
            (put-Risen db.jobs (record row { status = status }) fits r)
    ];
  }

  pub checkpoint-Risen :
      (digest : Snapshot → String) (row : WorkflowJobRow) (snapshot : Snapshot)
      → Fits row
      → Ensures Risen (checkpoint digest row snapshot) (λ row' db. Risen db × Fits row')
  unfolding checkpoint
  checkpoint-Risen digest row snapshot fits = record {
    holds = λ db r. (
      put-Risen db.jobs (record row { checkpoint_sequence = row.checkpoint_sequence + 1 }) fits r,
      fits,
    );
  }

  pub event-Risen :
      (key kind : String) (payload : Table Value)
      → Ensures Risen (event key kind payload) (λ _. Risen)
  event-Risen key kind payload = event-jobs HasRisen key kind payload

  pub refuse-Risen : (test : Bool) (e : Error) → Ensures Risen (refuse_if test e) (λ _. Risen)
  refuse-Risen test e = Ensures-weaken (Ensures-refuse_if test e) (λ db r. r) (λ _ db (r, h). r)

  -- A row that is stored may be written.
  pub stored-Fits :
      (key : String) (row : WorkflowJobRow) (db : Db)
      → IsIntegral db
      → Risen db
      → get db.jobs key ≡ some row
      → Fits row
  stored-Fits key row db w (stored, found, risen) here same =
      let k : key ≡ id = sym (w.keyed key row here) ∙ same in
      let e : some stored ≡ some row = sym found ∙ subst (λ j. get db.jobs j ≡ some row) k here in
      at_least stored row e risen
    where
      at_least : (a b : WorkflowJobRow) → some a ≡ some b → g ≤ a.generation → g ≤ b.generation
      at_least a b e h = subst (λ n. g ≤ n) (same_number a b e) h
        where
          same_number : (a b : WorkflowJobRow) → some a ≡ some b → a.generation ≡ b.generation
          same_number a b e = cc

  abbrev pub Ready : Db → Type 0
  Ready db = IsIntegral db × Risen db

  locked-Fits : (key : String) → Ensures Ready (locked key) (λ row db. Risen db × Fits row)
  locked-Fits key = record {
    holds = λ db (w, r). elim (Option-cases (get db.jobs key)) [
      | inl missing ↦ After-at (λ row db. Risen db × Fits row) (locked_missing key db missing) tt
      | inr (row, found) ↦
          After-at (λ row db. Risen db × Fits row) (locked_found key db row found)
            (r, stored-Fits key row db w r found)
    ];
  }

  -- A transaction that raises leaves the jobs as they were.
  pub transaction-Risen :
      {A : Type 0} (m : Session A)
      → Ensures Ready m (λ _. Risen)
      → (db : Db) → Ready db
      → Risen (transaction m db).1
  transaction-Risen {A} m h db p = rolled (m db) (h.holds db p)
    where
      rolled :
          (out : Result Error A × Db)
          → After (λ _. Risen) out
          → Risen
              (elim out.0 as (λ _. Result Error A × Db) [
                | ok a ↦ (Result.ok a, out.1)
                | err e ↦ (err e, db)
              ]).1
      rolled (ok a, after) r = r
      rolled (err e, after) r = p.1

  pub locked-Risen :
      {A : Type 0} (key : String) (body : WorkflowJobRow → Session A)
      → ((row : WorkflowJobRow) → Fits row → Ensures Risen (body row) (λ _. Risen))
      → (db : Db) → Ready db
      → Risen (transaction (do row ← locked key; body row) db).1
  locked-Risen key body h =
      transaction-Risen _
        (Ensures-bind (locked-Fits key) (λ row. Ensures-assume (λ fits. h row fits)))

  pub fenced-Risen :
      {A : Type 0} (now : ℕ) (key owner : String) (generation : ℕ)
      (body : WorkflowJobRow → Session A)
      → ((row : WorkflowJobRow) → Fits row → Ensures Risen (body row) (λ _. Risen))
      → (db : Db) → Ready db
      → Risen (transaction (do row ← locked key; fence row owner generation now; body row) db).1
  fenced-Risen now key owner generation body h =
      locked-Risen key (λ row. do fence row owner generation now; body row)
        (λ row fits.
          Ensures-bind
            (Ensures-weaken (fence-Ensures {P = Risen} row owner generation now) (λ db r. r)
              (λ _ db (r, held). r))
            (λ _. h row fits))
