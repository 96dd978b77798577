-- ===== src/Durable/Claims.antt =====
-- orchestration/durable_repository.py, `claim`: who holds a job after it.
use auto_scholar.Prelude.{
  ℕ, ◌≤◌, ◌<◌, ◌+◌, ◌*◌, String, ◌≡◌, ◌≢◌, refl, true, false, Option, none, some, [], ◌∷◌, arith,
  ap, sym, subst, ◌∙◌, if◌then◌else◌, Bool-cases, Option-cases, inl, inr,
}
use auto_scholar.Prelude.Table.{get, get-put_self}
use auto_scholar.Prelude.Result.{Result, ok, err, transaction}
use auto_scholar.Prelude.Ensures.{
  Ensures, After, After-at, Ensures-bind, Ensures-pure, Ensures-weaken, Ensures-transaction,
}
use auto_scholar.Snapshot.{number, text}
use auto_scholar.Durable.Rows.{Status, running, WorkflowJobRow, Db}
use auto_scholar.Durable.Session.{Error, lease_lost, holds_lease, write_job, set_status, second}
use auto_scholar.Durable.Lease.{
  claim, claim_row, first_claimable, is_claimable, is_queued, take, leased_to, status_text,
}
use auto_scholar.Durable.Integrity.{IsIntegral}
use auto_scholar.Durable.Integrity.Tasks.{set_status_found, set_status_missing, event-jobs}
use auto_scholar.Durable.Integrity.Leases.{claimable_stored, claim-IsIntegral}
use auto_scholar.Durable.Generations.{Ready}
use auto_scholar.Durable.Generations.Since.{Since, Since-Ready}
use auto_scholar.Durable.Fencing.{WorkerCall, perform, perform_refused}

-- The job of a claim as the claim leaves it.
abbrev pub claimed : String → ℕ → WorkflowJobRow → WorkflowJobRow
claimed owner until row = record (leased_to owner until row) {
  status = if is_queued row.status then running else row.status;
}

abbrev pub Stores : WorkflowJobRow → Db → Type 0
Stores row db = get db.jobs row.task_id ≡ some row

pub set_status-Stores :
    {P : Db → Type 0} (row : WorkflowJobRow) (status : Status)
    → Ensures P (set_status row status) (λ row' db.
      (row' ≡ record row { status = status }) × Stores (record row { status = status }) db)
set_status-Stores {P} row status = record {
  holds = λ db p. elim (Option-cases (get db.tasks row.task_id)) [
    | inl missing ↦
        After-at
          (λ row' db.
            (row' ≡ record row { status = status }) × Stores (record row { status = status }) db)
          (set_status_missing row status db missing) tt
    | inr (task, found) ↦
        After-at
          (λ row' db.
            (row' ≡ record row { status = status }) × Stores (record row { status = status }) db)
          (set_status_found row status db task found)
          (refl, get-put_self db.jobs row.task_id (record row { status = status }))
  ];
}

module _ (owner : String) (until : ℕ) (row : WorkflowJobRow) where
  take-Stores :
      {P : Db → Type 0}
      → Ensures P
          (take (leased_to owner until row) row.status)
          (λ _. Stores (claimed owner until row))
  unfolding take write_job
  take-Stores {P} = elim (Bool-cases (is_queued row.status)) [
    | inl fresh ↦ rw fresh (
        Ensures-weaken (set_status-Stores {P = P} (leased_to owner until row) running) (λ db p. p)
          (λ _ db (same, stored). stored))
    | inr started ↦
        rw started
          (record { holds = λ db p. get-put_self db.jobs row.task_id (leased_to owner until row) })
  ]

  claim_row-Stores :
      (lease_seconds later : ℕ)
      → until ≡ later + lease_seconds * second
      → Ensures
          (λ _. Unit {0})
          (claim_row owner lease_seconds later (some row))
          (λ out db.
            (out ≡ some (row.task_id, row.generation + 1)) × Stores (claimed owner until row) db)
  unfolding claim_row
  claim_row-Stores lease_seconds later e = rw (sym e) (
      Ensures-bind take-Stores (λ _.
        Ensures-bind
          (event-jobs (λ jobs. get jobs row.task_id ≡ some (claimed owner until row)) row.task_id
            "claimed"
            (("generation", number (row.generation + 1))
              ∷ ("previous", text (status_text row.status))
              ∷ []))
          (λ _. Ensures-pure _ (λ db stored. (refl, stored)))))

claim_at :
    (now later : ℕ) (owner : String) (lease_seconds : ℕ) (task_id : Option String) (db : Db)
    (found : Option WorkflowJobRow)
    → first_claimable now task_id db.jobs ≡ found
    → claim now later owner lease_seconds task_id db
      ≡ transaction (claim_row owner lease_seconds later found) db
unfolding claim
claim_at now later owner lease_seconds task_id db found h =
    ap (λ (x : Option WorkflowJobRow). transaction (claim_row owner lease_seconds later x) db) h

-- What a successful claim means.
pub record Claimed (now : ℕ) (task_id : Option String) (owner : String) (until : ℕ) (db db' : Db)
    (id : String) (generation : ℕ) : Type 0 where
  pub row : WorkflowJobRow
  pub was_stored : get db.jobs id ≡ some row
  pub was_claimable : is_claimable now task_id row ≡ true
  pub raised : generation ≡ row.generation + 1
  pub stored : get db'.jobs id ≡ some (claimed owner until row)

claimed_pair :
    {a a' : String} {b b' : ℕ}
    → ◌≡◌ {A = Option (String × ℕ)} (some (a, b)) (some (a', b'))
    → (a ≡ a') × (b ≡ b')
claimed_pair h = (cc, cc)

claim-some :
    (now later : ℕ) (owner : String) (lease_seconds : ℕ) (task_id : Option String) (db db' : Db)
    (out : Option (String × ℕ)) (row : WorkflowJobRow)
    → first_claimable now task_id db.jobs ≡ some row
    → claim now later owner lease_seconds task_id db ≡ (ok out, db')
    → (out ≡ some (row.task_id, row.generation + 1))
      × Stores (claimed owner (later + lease_seconds * second) row) db'
claim-some now later owner lease_seconds task_id db db' out row found h =
    subst
      (After (λ (given : Option (String × ℕ)) (db'' : Db).
        (given ≡ some (row.task_id, row.generation + 1))
        × Stores (claimed owner (later + lease_seconds * second) row) db''))
      (sym (claim_at now later owner lease_seconds task_id db (some row) found) ∙ h)
      ((Ensures-transaction (
          claim_row-Stores owner (later + lease_seconds * second) row lease_seconds later
            refl)).holds
        db tt)

claim-none :
    (now later : ℕ) (owner : String) (lease_seconds : ℕ) (task_id : Option String) (db : Db)
    → first_claimable now task_id db.jobs ≡ none
    → claim now later owner lease_seconds task_id db ≡ (ok none, db)
unfolding claim_row
claim-none now later owner lease_seconds task_id db h =
    claim_at now later owner lease_seconds task_id db none h

some_none :
    {a : String × ℕ} {db db' : Db}
    → ◌≢◌ {A = Result Error (Option (String × ℕ)) × Db} (ok (some a), db) (ok none, db')
some_none h = cc

claim-Claimed :
    (now later : ℕ) (owner : String) (lease_seconds : ℕ) (task_id : Option String) (db db' : Db)
    (id : String) (generation : ℕ)
    → IsIntegral db
    → claim now later owner lease_seconds task_id db ≡ (ok (some (id, generation)), db')
    → Claimed now task_id owner (later + lease_seconds * second) db db' id generation
claim-Claimed now later owner lease_seconds task_id db db' id generation w h =
    elim (Option-cases (first_claimable now task_id db.jobs)) [
      | inl nothing ↦
          absurd (some_none (sym h ∙ claim-none now later owner lease_seconds task_id db nothing))
      | inr (row, found) ↦
          let (given, stored) =
            claim-some now later owner lease_seconds task_id db db' (some (id, generation)) row
              found h in
          let (key, number_eq) = claimed_pair given in
          let (k, here, fits) = claimable_stored now task_id db.jobs row w.unique found in
          let named = w.keyed k row here in
          record {
            row = row;
            was_stored = rw (key ∙ named) here;
            was_claimable = fits;
            raised = number_eq;
            stored = rw key stored;
          }
    ]

other_generation :
    (owner : String) (until : ℕ) (row : WorkflowJobRow) (other_owner : String) (now other : ℕ)
    → other ≢ row.generation + 1
    → holds_lease (claimed owner until row) other_owner other now ≡ false
other_generation owner until row other_owner now other h = ground arith

older_generation :
    (row : WorkflowJobRow) (other_owner : String) (now other generation : ℕ)
    → other < generation
    → generation ≤ row.generation
    → holds_lease row other_owner other now ≡ false
older_generation row other_owner now other generation older risen = ground arith

-- A claim is exclusive and fences. If it returns a job and a generation, then that job was queued or its
-- lease had run out; the generation is one above the one it had; the job is stored with the new owner,
-- generation and lease, and is running if it was queued. In the database that it leaves, every call of a
-- worker, whatever its name and the time, with any other generation fails as a lost lease and changes
-- nothing. So does every call with a lower generation from then on: after any operations of the queue and
-- of the approvals, in any order, by any workers and clients.
pub claim_fences :
    (now later : ℕ) (owner : String) (lease_seconds : ℕ) (task_id : Option String) (db db' : Db)
    (id : String) (generation : ℕ)
    → IsIntegral db
    → claim now later owner lease_seconds task_id db ≡ (ok (some (id, generation)), db')
    → Claimed now task_id owner (later + lease_seconds * second) db db' id generation
      × ((call : WorkerCall) (time : ℕ) (other_owner : String) (other : ℕ)
          → other ≢ generation
          → perform call time id other_owner other db' ≡ (err lease_lost, db'))
      × ((then_db : Db)
          → Since db' then_db
          → (call : WorkerCall) (time : ℕ) (other_owner : String) (other : ℕ) → other < generation
          → perform call time id other_owner other then_db ≡ (err lease_lost, then_db))
claim_fences now later owner lease_seconds task_id db db' id generation w h =
    let c = claim-Claimed now later owner lease_seconds task_id db db' id generation w h in
    let kept : IsIntegral db' =
      subst IsIntegral (ap (λ (out : Result Error (Option (String × ℕ)) × Db). out.1) h)
        (claim-IsIntegral now later owner lease_seconds task_id db w) in
    let ready : Ready id generation db' = (
      kept,
      (claimed owner (later + lease_seconds * second) c.row, c.stored, omega (arith, c.raised)),
    ) in
    (
      c,
      λ call time other_owner other differs.
          perform_refused time id other_owner other db'
            (claimed owner (later + lease_seconds * second) c.row) call c.stored
            (other_generation owner (later + lease_seconds * second) c.row other_owner time other
              (λ same. differs (same ∙ sym c.raised))),
      λ then_db since call time other_owner other older.
          let (_, (row, found, risen)) = Since-Ready id generation db' then_db since ready in
          perform_refused time id other_owner other then_db row call found
            (older_generation row other_owner time other generation older risen),
    )
