-- ===== src/Durable/Approved.antt =====
-- orchestration/durable_repository.py, `begin`: the use of an approval.
use auto_scholar.Prelude.{
  ℕ, ◌<◌, String, ◌≡◌, refl, true, false, not, ◌||◌, ◌==◌, leb, Option, none, some, List, [], ◌∷◌,
  arith, ap, sym, subst, is_empty, Bool-cases, Option-cases, inl, inr,
}
use auto_scholar.Prelude.Table.{Table, get}
use auto_scholar.Prelude.Result.{ok, err, modify}
use auto_scholar.Prelude.Ensures.{
  Ensures, After, After-at, Ensures-bind, Ensures-assume, Ensures-pure, Ensures-raise, Ensures-gets,
  Ensures-refuse_if, Ensures-transaction,
}
use auto_scholar.Snapshot.{Value, number}
use auto_scholar.Durable.Rows.{Status, WorkflowJobRow, WorkflowApprovalRow, consumed, Db}
use auto_scholar.Durable.Session.{Error, operation_uncertain, approval_required, event, write_job}
use auto_scholar.Durable.Work.{
  begin, begin_held, start_unit, check_approval, use_approval, mark_approval, find_approval,
  is_approval_of, is_approved, is_running, operation_hash,
}
use auto_scholar.Durable.Approvals.Later.{Later, Later-IsClosed, closed_refused}
use auto_scholar.Durable.Integrity.Events.{event_missing, event_found}
use auto_scholar.Durable.Fencing.{fenced_ok}

some_approval : {a b : WorkflowApprovalRow} → some a ≡ some b → a ≡ b
some_approval h = cc

abbrev pub used : WorkflowApprovalRow → WorkflowApprovalRow
used approval = record approval { status = consumed }

same_number : (n : ℕ) → (n == n) ≡ true
same_number n = ground arith

find-mark_approval :
    (task_id hash : String) (rows : List WorkflowApprovalRow) (approval : WorkflowApprovalRow)
    → find_approval task_id hash rows ≡ some approval
    → find_approval task_id hash (mark_approval approval.id consumed rows) ≡ some (used approval)
unfolding mark_approval
find-mark_approval task_id hash [] approval h = absurd (cc)
find-mark_approval task_id hash (row ∷ rows) approval h =
    elim (Bool-cases (is_approval_of task_id hash row)) [
      | inl here ↦
          let e : row ≡ approval = some_approval (rw here at h) in
          subst
            (λ (r : WorkflowApprovalRow).
              find_approval task_id hash (mark_approval r.id consumed (row ∷ rows)) ≡ some (used r))
            e (rw (same_number row.id, here) refl)
      | inr other ↦
          let rest : find_approval task_id hash rows ≡ some approval = rw other at h in
          elim (Bool-cases (row.id == approval.id)) [
            | inl marked ↦ rw (marked, other) (find-mark_approval task_id hash rows approval rest)
            | inr plain ↦ rw (plain, other) (find-mark_approval task_id hash rows approval rest)
          ]
    ]

event-approvals :
    (P : List WorkflowApprovalRow → Type 0) (id kind : String) (payload : Table Value)
    → Ensures (λ (db : Db). P db.approvals) (event id kind payload) (λ _ db. P db.approvals)
event-approvals P id kind payload = record {
  holds = λ db p. elim (Option-cases (get db.tasks id)) [
    | inl missing ↦
        After-at (λ _ (db : Db). P db.approvals) (event_missing id kind payload db missing) tt
    | inr (task, found) ↦
        After-at (λ _ (db : Db). P db.approvals) (event_found id kind payload db task found) p
  ];
}

-- An approval that was good at a time, and the approvals after its use.
pub record Consumed (now : ℕ) (task_id hash : String) (before after : List WorkflowApprovalRow)
    : Type 0 where
  pub approval : WorkflowApprovalRow
  pub found : find_approval task_id hash before ≡ some approval
  pub approved : is_approved approval.status ≡ true
  pub in_time : now < approval.expires_at
  pub spent : find_approval task_id hash after ≡ some (used approval)

module _ (now : ℕ) (task_id hash : String) (before : List WorkflowApprovalRow) where
  mark-Consumed :
      (approval : WorkflowApprovalRow)
      → find_approval task_id hash before ≡ some approval
      → (not (is_approved approval.status) || leb approval.expires_at now) ≡ false
      → Ensures {E = Error}
          (λ (db : Db). db.approvals ≡ before)
          (modify (λ (db : Db). record db {
            approvals = mark_approval approval.id consumed db.approvals;
          }))
          (λ _ db. Consumed now task_id hash before db.approvals)
  mark-Consumed approval e good = record {
    holds = λ db same. record {
      approval = approval;
      found = e;
      approved = ground (arith, good);
      in_time = ground (arith, good);
      spent = rw same (find-mark_approval task_id hash before approval e);
    };
  }

  use_approval-Consumed :
      (found : Option WorkflowApprovalRow)
      → find_approval task_id hash before ≡ found
      → Ensures
          (λ (db : Db). db.approvals ≡ before)
          (use_approval now task_id found)
          (λ _ db. Consumed now task_id hash before db.approvals)
  unfolding use_approval
  use_approval-Consumed none e = Ensures-raise approval_required
  use_approval-Consumed (some approval) e =
      Ensures-bind
        (Ensures-refuse_if (not (is_approved approval.status) || leb approval.expires_at now)
          approval_required)
        (λ _. Ensures-assume (λ good. Ensures-bind (mark-Consumed approval e good) (λ _.
          event-approvals (Consumed now task_id hash before) task_id "approval_consumed"
            (("approval_id", number approval.id) ∷ []))))

  write_job-Consumed :
      (row : WorkflowJobRow)
      → Ensures
          (λ (db : Db). Consumed now task_id hash before db.approvals)
          (write_job row)
          (λ _ db. Consumed now task_id hash before db.approvals)
  unfolding write_job
  write_job-Consumed row = record { holds = λ db c. c }

  start_unit-Consumed :
      (active : Table Value) (row : WorkflowJobRow)
      → row.task_id ≡ task_id
      → is_running row.status ≡ true
      → operation_hash active ≡ some hash
      → Ensures
          (λ (db : Db). db.approvals ≡ before)
          (start_unit now active row)
          (λ _ db. Consumed now task_id hash before db.approvals)
  unfolding start_unit check_approval
  start_unit-Consumed active row key running named =
      rw (running, named, key)
        (Ensures-bind
          (Ensures-bind
            (Ensures-gets
              {Q = λ found (db : Db).
                (db.approvals ≡ before) × (find_approval task_id hash before ≡ found)}
              (λ (db : Db). find_approval task_id hash db.approvals)
              (λ db same. (same, ap (find_approval task_id hash) (sym same))))
            (λ found. Ensures-assume (λ e. use_approval-Consumed found e)))
          (λ _. Ensures-bind (write_job-Consumed _) (λ _.
            event-approvals (Consumed now task_id hash before) task_id "unit_started" active)))

  begin_held-Consumed :
      (active : Table Value) (row : WorkflowJobRow)
      → row.task_id ≡ task_id
      → is_running row.status ≡ true
      → operation_hash active ≡ some hash
      → Ensures
          (λ (db : Db). db.approvals ≡ before)
          (begin_held now active row)
          (λ _ db. Consumed now task_id hash before db.approvals)
  begin_held-Consumed active row key running named =
      Ensures-bind
        (Ensures-refuse_if (not (is_empty row.active) || not (is_empty row.pending_calls))
          operation_uncertain)
        (λ _. Ensures-assume (λ free.
          Ensures-bind (start_unit-Consumed active row key running named)
            (λ _. Ensures-pure row.status (λ db c. c))))

-- An approval is used once. If a worker begins a unit that needs an approval, on a running job, then there
-- was an approval of that operation for that task, approved and not expired; and it is consumed now. After
-- any later calls of `begin`, `gate` and `decide`, by anyone and with any arguments, failed ones included,
-- and any other transactions that do not write approvals, the check of an approval for that operation
-- still fails, at any time, and changes nothing.
pub begin_consumes :
    (now : ℕ) (task_id owner : String) (generation : ℕ) (active : Table Value) (hash : String)
    (db db' : Db) (row : WorkflowJobRow) (status : Status)
    → get db.jobs task_id ≡ some row
    → row.task_id ≡ task_id
    → is_running row.status ≡ true
    → operation_hash active ≡ some hash
    → begin now task_id owner generation active db ≡ (ok status, db')
    → Consumed now task_id hash db.approvals db'.approvals
      × ((later : Db)
          → Later db' later
          → (time : ℕ)
          → check_approval time task_id (some hash) later ≡ (err approval_required, later))
unfolding begin
begin_consumes now task_id owner generation active hash db db' row status found key running named
      h =
    let (holds, done) =
      fenced_ok now task_id owner generation db row (begin_held now active) found h in
    let c : Consumed now task_id hash db.approvals db'.approvals =
      subst (After (λ (_ : Status) (x : Db). Consumed now task_id hash db.approvals x.approvals))
        done
        ((Ensures-transaction
            (begin_held-Consumed now task_id hash db.approvals active row key running named)).holds
          db refl) in
    (
      c,
      λ later l time.
          closed_refused time task_id hash later
            (Later-IsClosed task_id hash db' later l (used c.approval, c.spent, refl)),
    )
