-- ===== src/Durable/Saved.antt =====
-- orchestration/durable_repository.py, `save` and `snapshot`: what the next worker finds.
use auto_scholar.Prelude.{
  ℕ, ◌+◌, String, ◌≡◌, refl, true, false, ◌&&◌, ◌==◌, Option, none, some, [], ◌∷◌, arith, ap, sym,
  subst, ◌∙◌, find, str_eq, eq_refl, eq_iff, Option-cases, inl, inr,
}
use auto_scholar.Prelude.Table.{Table, get, get-put_self}
use auto_scholar.Prelude.Result.{ok, err, pure, gets, ◌>>=◌, bind_ok, bind_err}
use auto_scholar.Prelude.Ensures.{
  Ensures, After, After-at, Ensures-bind, Ensures-assume, Ensures-weaken, Ensures-transaction,
}
use auto_scholar.Snapshot.{Value, text, number, Snapshot}
use auto_scholar.Runs.{is_valid_snapshot, model_validate}
use auto_scholar.Durable.Rows.{Status, WorkflowJobRow, WorkflowCheckpointRow, Db}
use auto_scholar.Durable.Session.{
  validation_error, holds_lease, event, locked, checkpoint, set_status,
}
use auto_scholar.Durable.Lease.{status_text}
use auto_scholar.Durable.Work.{merge_spent}
use auto_scholar.Durable.Save.{save, save_held, saved_status, released, write_task, stage_text}
use auto_scholar.Durable.Recovery.{read_checkpoint, is_checkpoint_of}
use auto_scholar.Durable.Recovery
use auto_scholar.Durable.Integrity.{IsIntegral}
use auto_scholar.Durable.Integrity.Jobs.{advanced}
use auto_scholar.Durable.Integrity.Guards.{locked_found}
use auto_scholar.Durable.Integrity.Events.{event_missing, event_found}
use auto_scholar.Durable.Integrity.Tasks.{set_status_found, set_status_missing}
use auto_scholar.Durable.Integrity.Saves.{write_task_found, write_task_missing}
use auto_scholar.Durable.Fencing.{fenced_ok}

-- The job is stored and its latest checkpoint holds a snapshot.
pub record Saved (digest : Snapshot → String) (snapshot : Snapshot) (row : WorkflowJobRow) (db : Db)
    : Type 0 where
  pub stored : get db.jobs row.task_id ≡ some row
  pub id : ℕ
  pub kept :
      find (is_checkpoint_of row.task_id row.checkpoint_sequence) db.checkpoints
      ≡ some (record {
        id = id;
        task_id = row.task_id;
        sequence = row.checkpoint_sequence;
        payload = snapshot;
        sha256 = digest snapshot;
      })

own_checkpoint : (task_id : String) (n : ℕ) → (str_eq task_id task_id && n == n) ≡ true
own_checkpoint task_id n = ground (arith, eq_refl task_id)

module _ (digest : Snapshot → String) (snapshot : Snapshot) where
  checkpoint-Saved :
      {P : Db → Type 0} (row : WorkflowJobRow)
      → Ensures P
          (checkpoint digest row snapshot)
          (λ row' db. Saved digest snapshot row' db × (row' ≡ advanced digest row snapshot))
  unfolding checkpoint
  checkpoint-Saved row = record {
    holds = λ db p. (
      record {
        stored = get-put_self db.jobs row.task_id (advanced digest row snapshot);
        id = db.drawn;
        kept = rw (own_checkpoint row.task_id (row.checkpoint_sequence + 1)) refl;
      },
      refl,
    );
  }

  set_status-Saved :
      (row : WorkflowJobRow) (old : WorkflowJobRow) (status : Status)
      → old.task_id ≡ row.task_id
      → old.checkpoint_sequence ≡ row.checkpoint_sequence
      → Ensures
          (Saved digest snapshot old)
          (set_status row status)
          (λ row' db. Saved digest snapshot row' db × (row' ≡ record row { status = status }))
  set_status-Saved row old status key counter = record {
    holds = λ db s. elim (Option-cases (get db.tasks row.task_id)) [
      | inl missing ↦ After-at Q (set_status_missing row status db missing) tt
      | inr (task, found) ↦ After-at Q (set_status_found row status db task found) (
        record {
          stored = get-put_self db.jobs row.task_id (record row { status = status });
          id = s.id;
          kept = rw (key, counter) at s.kept;
        },
        refl,
      )
    ];
  }
    where
      Q : WorkflowJobRow → Db → Type 0
      Q row' db = Saved digest snapshot row' db × (row' ≡ record row { status = status })

  tail-Saved :
      (row : WorkflowJobRow) (id : String) (status : Status)
      → Ensures
          (Saved digest snapshot row)
          (write_task id snapshot status)
          (λ _. Saved digest snapshot row)
  tail-Saved row id status = record {
    holds = λ db s. elim (Option-cases (get db.tasks id)) [
      | inl missing ↦
          After-at (λ _. Saved digest snapshot row)
            (write_task_missing id snapshot status db missing) tt
      | inr (task, found) ↦
          After-at (λ _. Saved digest snapshot row)
            (write_task_found id snapshot status db task found)
            (record { stored = s.stored; id = s.id; kept = s.kept })
    ];
  }

  event-Saved :
      (row : WorkflowJobRow) (id kind : String) (payload : Table Value)
      → Ensures (Saved digest snapshot row) (event id kind payload) (λ _. Saved digest snapshot row)
  event-Saved row id kind payload = record {
    holds = λ db s. elim (Option-cases (get db.tasks id)) [
      | inl missing ↦
          After-at (λ _. Saved digest snapshot row) (event_missing id kind payload db missing) tt
      | inr (task, found) ↦
          After-at (λ _. Saved digest snapshot row) (event_found id kind payload db task found)
            (record { stored = s.stored; id = s.id; kept = s.kept })
    ];
  }

  -- What `save` makes of the job.
  abbrev pub after_save : Table ℕ → ℕ → Status × Option String → WorkflowJobRow → WorkflowJobRow
  after_save usage elapsed decided row =
      record (released decided.0 (
        advanced digest (record (merge_spent usage elapsed row) { error_code = decided.1 })
          snapshot)) { status = decided.0 }

  save_held-Saved :
      (task_id : String) (usage : Table ℕ) (elapsed : ℕ) (decided : Status × Option String)
      (row : WorkflowJobRow)
      → Ensures
          (λ _. Unit {0})
          (save_held digest task_id snapshot usage elapsed decided row)
          (λ _. Saved digest snapshot (after_save usage elapsed decided row))
  save_held-Saved task_id usage elapsed decided row =
      Ensures-bind
        (checkpoint-Saved (record (merge_spent usage elapsed row) { error_code = decided.1 }))
        (λ row'. Ensures-assume (λ e.
          Ensures-bind (set_status-Saved (released decided.0 row') row' decided.0 refl refl)
            (λ row''. Ensures-assume (λ e'. Ensures-bind (tail-Saved row'' task_id decided.0) (λ _.
              Ensures-weaken (event-Saved row'' task_id "checkpoint_saved" (payload row'))
                (λ db s. s)
                (λ _ db s.
                  subst (λ (r : WorkflowJobRow). Saved digest snapshot r db)
                    (e'
                      ∙ ap
                          (λ (r : WorkflowJobRow). record (released decided.0 r) {
                            status = decided.0;
                          })
                          e)
                    s))))))
    where
      payload : WorkflowJobRow → Table Value
      payload row' =
          ("sequence", number row'.checkpoint_sequence)
          ∷ ("stage", text (stage_text snapshot.stage))
          ∷ ("status", text (status_text decided.0))
          ∷ []

find_checkpoint :
    (digest : Snapshot → String) (task_id : String) (row : WorkflowJobRow) (db : Db)
    (found : Option WorkflowCheckpointRow)
    → get db.jobs task_id ≡ some row
    → find (is_checkpoint_of task_id row.checkpoint_sequence) db.checkpoints ≡ found
    → Recovery.snapshot digest task_id db
      ≡ (read_checkpoint digest task_id found >>= λ saved. pure (saved, row)) db
unfolding Recovery.snapshot
find_checkpoint digest task_id row db found stored kept =
    bind_ok (locked task_id)
      (λ r. do
        found' ←
            gets (λ (x : Db). find (is_checkpoint_of task_id r.checkpoint_sequence) x.checkpoints)
        saved ← read_checkpoint digest task_id found'
        pure (saved, r))
      (locked_found task_id db row stored)
    ∙ ap (λ x. (read_checkpoint digest task_id x >>= λ saved. pure (saved, row)) db) kept

read_own :
    (digest : Snapshot → String) (task_id : String) (cp : WorkflowCheckpointRow) (db : Db)
    → cp.sha256 ≡ digest cp.payload
    → cp.payload.task_id ≡ task_id
    → (is_valid_snapshot cp.payload ≡ true
        → read_checkpoint digest task_id (some cp) db ≡ (ok cp.payload, db))
      × (is_valid_snapshot cp.payload ≡ false
          → read_checkpoint digest task_id (some cp) db ≡ (err validation_error, db))
unfolding read_checkpoint model_validate
read_own digest task_id cp db sha own =
    let same : str_eq cp.sha256 (digest cp.payload) ≡ true =
      ground (arith, sha, eq_iff cp.sha256 (digest cp.payload)) in
    let mine : str_eq cp.payload.task_id task_id ≡ true =
      ground (arith, own, eq_iff cp.payload.task_id task_id) in
    (λ valid. rw (same, valid, mine) refl, λ invalid. rw (same, invalid) refl)

-- What a worker saves is what the next one reads. If `save` returns, then the worker held the lease; the
-- job is released, its checkpoint counter is one higher, and its status and error code are those that
-- `saved_status` decides from the job's own state. If the snapshot is one of this task, then `snapshot`
-- returns it and that job if its fields, its plan and its review are valid, and fails with the validation
-- error if they are not.
pub snapshot-save :
    (digest : Snapshot → String) (now : ℕ) (task_id owner : String) (generation : ℕ)
    (snap : Snapshot) (usage : Table ℕ) (elapsed : ℕ) (status : Status) (error_code : Option String)
    (db db' : Db) (row : WorkflowJobRow)
    → IsIntegral db
    → get db.jobs task_id ≡ some row
    → save digest now task_id owner generation snap usage elapsed status error_code db
      ≡ (ok tt, db')
    → let decided = saved_status row status error_code in
      let row' = after_save digest snap usage elapsed decided row in
      (holds_lease row owner generation now ≡ true)
      × (get db'.jobs task_id ≡ some row')
      × (row'.status ≡ decided.0)
      × (row'.error_code ≡ decided.1)
      × (row'.owner ≡ none)
      × (row'.checkpoint_sequence ≡ row.checkpoint_sequence + 1)
      × (snap.task_id ≡ task_id
          → (is_valid_snapshot snap ≡ true
              → Recovery.snapshot digest task_id db' ≡ (ok (snap, row'), db'))
            × (is_valid_snapshot snap ≡ false
                → Recovery.snapshot digest task_id db' ≡ (err validation_error, db')))
unfolding save merge_spent
snapshot-save digest now task_id owner generation snap usage elapsed status error_code db db' row w
      found h =
    let decided = saved_status row status error_code in
    let row' = after_save digest snap usage elapsed decided row in
    let (holds, done) =
      fenced_ok now task_id owner generation db row
        (λ r. save_held digest task_id snap usage elapsed (saved_status r status error_code) r)
        found h in
    let s : Saved digest snap row' db' =
      subst (After (λ (_ : Unit {0}). Saved digest snap row')) done (
        (Ensures-transaction (save_held-Saved digest snap task_id usage elapsed decided row)).holds
          db tt) in
    let key : row.task_id ≡ task_id = w.keyed task_id row found in
    let stored : get db'.jobs task_id ≡ some row' =
      subst (λ k. get db'.jobs k ≡ some row') key s.stored in
    (
      holds,
      stored,
      refl,
      refl,
      refl,
      refl,
      λ own.
          let found = find_checkpoint digest task_id row' db' _ stored (
            ap (λ k. find (is_checkpoint_of k row'.checkpoint_sequence) db'.checkpoints) (sym key)
            ∙ s.kept) in
          let read = read_own digest task_id _ db' refl own in
          (
            λ valid.
                found
                ∙ bind_ok (read_checkpoint digest task_id _) (λ saved. pure (saved, row'))
                    (read.0 valid),
            λ invalid.
                found
                ∙ bind_err (read_checkpoint digest task_id _) (λ saved. pure (saved, row'))
                    (read.1 invalid),
          ),
    )
