-- ===== src/Durable/Integrity/Leases.antt =====
-- orchestration/durable_repository.py: `claim`, `heartbeat` and `quarantine` keep the database integral.
use auto_scholar.Prelude.{
  ℕ, ◌+◌, ◌*◌, String, ◌≡◌, ◌≢◌, refl, true, false, Option, none, some, [], ◌∷◌, str_eq, eq_iff,
  eq_refl, arith, Bool-cases, Option-cases, inl, inr, ◌⊎◌, sym, ap, ◌∙◌,
}
use auto_scholar.Prelude.Table.{Table, get, IsUnique}
use auto_scholar.Prelude.Ensures.{
  Ensures, Keeps, Keeps-transaction, Ensures-bind, Ensures-pure, Ensures-gets, Ensures-if,
  Ensures-weaken,
}
use auto_scholar.Durable.Rows.{running, recovery_required, WorkflowJobRow, Db}
use auto_scholar.Durable.Session.{second}
use auto_scholar.Durable.Lease.{
  claim, claim_row, first_claimable, is_claimable, comes_before, is_queued, take, leased_to,
  heartbeat, quarantine,
}
use auto_scholar.Durable.Integrity.{IsSound, IsIntegral, IsWritable}
use auto_scholar.Durable.Integrity.Guards.{stored-IsWritable, fenced_update, change}
use auto_scholar.Durable.Integrity.Events.{event-IsIntegral, event-IsWritable}
use auto_scholar.Durable.Integrity.Jobs.{write_job-IsWritable}
use auto_scholar.Durable.Integrity.Tasks.{set_status-IsWritable}

some_row : {a b : WorkflowJobRow} → some a ≡ some b → a ≡ b
some_row h = cc

none_claimable :
    (now : ℕ) (task_id : Option String) (row : WorkflowJobRow)
    → first_claimable now task_id [] ≢ some row
unfolding first_claimable
none_claimable now task_id row h = cc

-- The row that a claim chooses is a row of the table, and may be claimed.
first_claimable-cases :
    (now : ℕ) (task_id : Option String) (k : String) (other : WorkflowJobRow)
    (jobs : Table WorkflowJobRow) (row : WorkflowJobRow)
    → first_claimable now task_id ((k, other) ∷ jobs) ≡ some row
    → ((other ≡ row) × (is_claimable now task_id other ≡ true))
      ⊎ (first_claimable now task_id jobs ≡ some row)
unfolding first_claimable
first_claimable-cases now task_id k other jobs row h =
    elim (Bool-cases (is_claimable now task_id other)) [
      | inr unfit ↦ inr (rw unfit at h)
      | inl fits ↦ elim (Option-cases (first_claimable now task_id jobs)) [
        | inl alone ↦
            let e : some other ≡ some row = rw (fits, alone) at h in inl (some_row e, fits)
        | inr (best, found) ↦ elim (Bool-cases (comes_before best other)) [
          | inl earlier ↦ inr (found ∙ rw (fits, found, earlier) at h)
          | inr later ↦
              let e : some other ≡ some row = rw (fits, found, later) at h in inl (some_row e, fits)
        ]
      ]
    ]

pub claimable_stored :
    (now : ℕ) (task_id : Option String) (jobs : Table WorkflowJobRow) (row : WorkflowJobRow)
    → IsUnique jobs
    → first_claimable now task_id jobs ≡ some row
    → (id : String) × (get jobs id ≡ some row) × (is_claimable now task_id row ≡ true)
unfolding get
claimable_stored now task_id [] row u h = absurd (none_claimable now task_id row h)
claimable_stored now task_id ((k, other) ∷ jobs) row (fresh, u) h =
    elim (first_claimable-cases now task_id k other jobs row h) [
      | inl (here, fits) ↦ (k, rw (eq_refl, here) refl, rw (sym here) fits)
      | inr there ↦
          let (id, found, fits) = claimable_stored now task_id jobs row u there in
          elim (Bool-cases (str_eq k id)) [
            | inl same ↦
                let e : k ≡ id = ground (arith, same, eq_iff k id) in
                absurd (cc (found, ap (get jobs) e, fresh))
            | inr other_key ↦ (id, rw other_key found, fits)
          ]
    ]

Chosen : ℕ → Option String → Option WorkflowJobRow → Db → Type 0
Chosen now task_id none db = IsIntegral db
Chosen now task_id (some row) db =
    IsWritable row db × IsSound row × (is_claimable now task_id row ≡ true)

choose :
    (now : ℕ) (task_id : Option String) (db : Db)
    → IsIntegral db
    → Chosen now task_id (first_claimable now task_id db.jobs) db
unfolding Chosen
choose now task_id db w = elim (Option-cases (first_claimable now task_id db.jobs)) [
  | inl none_left ↦ rw none_left w
  | inr (row, found) ↦
      let (id, here, fits) = claimable_stored now task_id db.jobs row w.unique found in
      rw found (stored-IsWritable id row db w here, w.sound id row here, fits)
]

leased-IsSound :
    (now : ℕ) (task_id : Option String) (owner : String) (until : ℕ) (row : WorkflowJobRow)
    → IsSound row
    → is_claimable now task_id row ≡ true
    → is_queued row.status ≡ false
    → IsSound (leased_to owner until row)
leased-IsSound now task_id owner until row s fits started = record {
  leased = ground (arith, fits, started);
  single = s.single;
}

leased-IsWritable :
    (owner : String) (until : ℕ) (row : WorkflowJobRow) (db : Db)
    → IsWritable row db
    → IsWritable (leased_to owner until row) db
leased-IsWritable owner until row db w = record {
  integral = w.integral;
  numbered = w.numbered;
  has_task = w.has_task;
}

take-IsWritable :
    (now : ℕ) (task_id : Option String) (owner : String) (until : ℕ) (row : WorkflowJobRow)
    → IsSound row
    → is_claimable now task_id row ≡ true
    → Ensures
        (IsWritable row)
        (take (leased_to owner until row) row.status)
        (λ row' db. IsWritable row' db × (row'.task_id ≡ row.task_id))
unfolding take
take-IsWritable now task_id owner until row s fits =
    Ensures-if (is_queued row.status)
      (λ fresh.
        Ensures-weaken
          (set_status-IsWritable (leased_to owner until row) running
            (record { leased = refl; single = s.single }))
          (λ db w. leased-IsWritable owner until row db w)
          (λ row' db (w, e). (w, ap (λ (r : WorkflowJobRow). r.task_id) e)))
      (λ started.
        Ensures-weaken
          (Ensures-bind
            (write_job-IsWritable (leased_to owner until row)
              (leased-IsSound now task_id owner until row s fits started))
            (λ _. Ensures-pure (leased_to owner until row) (λ db w. (w, refl))))
          (λ db w. leased-IsWritable owner until row db w) (λ row' db q. q))

claim_row-IsIntegral :
    (now : ℕ) (task_id : Option String) (owner : String) (lease_seconds later : ℕ)
    (found : Option WorkflowJobRow)
    → Ensures
        (Chosen now task_id found)
        (claim_row owner lease_seconds later found)
        (λ _. IsIntegral)
unfolding Chosen claim_row
claim_row-IsIntegral now task_id owner lease_seconds later none = Ensures-pure none (λ db w. w)
claim_row-IsIntegral now task_id owner lease_seconds later (some row) = record {
  holds = λ db (w, s, fits).
      (Ensures-bind (take-IsWritable now task_id owner (later + lease_seconds * second) row s fits)
          (λ row'.
            Ensures-weaken
              (Ensures-bind (event-IsWritable row' row.task_id "claimed" _)
                (λ _. Ensures-pure _ (λ db' w'. w'.integral)))
              (λ db' (w', e). w') (λ a db' q. q))).holds
        db w;
}

pub claim-IsIntegral :
    (now later : ℕ) (owner : String) (lease_seconds : ℕ) (task_id : Option String)
    → Keeps IsIntegral (claim now later owner lease_seconds task_id)
unfolding claim
claim-IsIntegral now later owner lease_seconds task_id = Keeps-transaction _ (
    Ensures-bind
      (Ensures-gets (λ db. first_claimable now task_id db.jobs) (λ db w. choose now task_id db w))
      (λ found. claim_row-IsIntegral now task_id owner lease_seconds later found))

pub heartbeat-IsIntegral :
    (now later : ℕ) (task_id owner : String) (generation lease_seconds : ℕ)
    → Keeps IsIntegral (heartbeat now later task_id owner generation lease_seconds)
unfolding heartbeat
heartbeat-IsIntegral now later task_id owner generation lease_seconds =
    fenced_update now task_id owner generation _ (λ row s e.
      change row (record row { lease_until = some (later + lease_seconds * second) }) refl refl
        (Ensures-bind (write_job-IsWritable _ (record { leased = s.leased; single = s.single }))
          (λ _. Ensures-pure row.status (λ db w. w.integral))))

pub quarantine-IsIntegral :
    (now : ℕ) (task_id owner : String) (generation : ℕ)
    → Keeps IsIntegral (quarantine now task_id owner generation)
unfolding quarantine
quarantine-IsIntegral now task_id owner generation =
    fenced_update now task_id owner generation _ (λ row s e.
      change row
        (record row {
          error_code = some "checkpoint_integrity_failed";
          owner = none;
          lease_until = none;
        })
        refl refl
        (Ensures-bind
          (set_status-IsWritable _ recovery_required (record { leased = refl; single = s.single }))
          (λ row'.
            Ensures-weaken (event-IsIntegral task_id "checkpoint_rejected" [])
              (λ db (w, changed). w.integral) (λ a db q. q))))
