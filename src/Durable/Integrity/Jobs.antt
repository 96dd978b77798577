-- ===== src/Durable/Integrity/Jobs.antt =====
-- orchestration/durable_repository.py: the writes of a job and of its checkpoints.
use auto_scholar.Prelude.{
  ◌+◌, String, ◌≡◌, refl, some, ◌∷◌, str_eq, eq_iff, arith, Bool-cases, ◌⊎◌, inl, inr, ap, sym,
}
use auto_scholar.Prelude.Table.{get, put, get-put, get-put_self, put-IsUnique}
use auto_scholar.Prelude.Ensures.{Ensures}
use auto_scholar.Snapshot.{Snapshot}
use auto_scholar.Durable.Rows.{WorkflowJobRow, WorkflowCheckpointRow, Db}
use auto_scholar.Durable.Session.{write_job, checkpoint}
use auto_scholar.Durable.Integrity.{
  countdown, countdown_step, checkpoint_numbers, last_checkpoint, IsSound, IsIntegral, IsWritable,
}

some_eq : {A : Type 0} {a b : A} → some a ≡ some b → a ≡ b
some_eq h = cc

pub stored :
    (row : WorkflowJobRow) (db : Db) (id : String) (other : WorkflowJobRow)
    → get (put db.jobs row.task_id row) id ≡ some other
    → ((row ≡ other) × (row.task_id ≡ id)) ⊎ (get db.jobs id ≡ some other)
stored row db id other e = elim (Bool-cases (str_eq row.task_id id)) [
  | inl same ↦
      let found : some row ≡ some other = rw (get-put, same) at e in
      inl (some_eq found, ground (arith, same, eq_iff row.task_id id))
  | inr different ↦ inr (rw (get-put, different) at e)
]

-- A job in place of the stored one.
module _ (row : WorkflowJobRow) (db : Db) (w : IsWritable row db) (s : IsSound row) where
  abbrev pub with_job : Db
  with_job = record db { jobs = put db.jobs row.task_id row }

  with_job-IsIntegral : IsIntegral with_job
  with_job-IsIntegral = record {
    events = w.integral.events;
    checkpoints = λ id. same_checkpoints id;
    keyed = λ id other e. elim (stored row db id other e) [
      | inl (new, here) ↦ rw (sym new) here
      | inr old ↦ w.integral.keyed id other old
    ];
    owned = λ id other e. elim (stored row db id other e) [
      | inl (new, here) ↦ rw (sym here) w.has_task
      | inr old ↦ w.integral.owned id other old
    ];
    unique = put-IsUnique db.jobs row.task_id row w.integral.unique;
    sound = λ id other e. elim (stored row db id other e) [
      | inl (new, here) ↦ rw (sym new) s
      | inr old ↦ w.integral.sound id other old
    ];
  }
    where
      same_checkpoints :
          (id : String)
          → checkpoint_numbers id db.checkpoints
            ≡ countdown (last_checkpoint (get (put db.jobs row.task_id row) id))
      same_checkpoints id = elim (Bool-cases (str_eq row.task_id id)) [
        | inl same ↦
            let e : row.task_id ≡ id = ground (arith, same, eq_iff row.task_id id) in
            rw (w.integral.checkpoints id, get-put, same) (ap countdown (rw (sym e) w.numbered))
        | inr different ↦ rw (get-put, different) (w.integral.checkpoints id)
      ]

  pub with_job-IsWritable : IsWritable row with_job
  with_job-IsWritable = record {
    integral = with_job-IsIntegral;
    numbered = ap last_checkpoint (get-put_self db.jobs row.task_id row);
    has_task = w.has_task;
  }

pub write_job-IsWritable :
    (row : WorkflowJobRow)
    → IsSound row
    → Ensures (IsWritable row) (write_job row) (λ _. IsWritable row)
unfolding write_job
write_job-IsWritable row s = record { holds = λ db w. with_job-IsWritable row db w s }

module _ (digest : Snapshot → String) (row : WorkflowJobRow) (snapshot : Snapshot) where
  abbrev pub advanced : WorkflowJobRow
  advanced = record row { checkpoint_sequence = row.checkpoint_sequence + 1 }

  abbrev with_checkpoint : Db → Db
  with_checkpoint db =
      let saved : WorkflowCheckpointRow = record {
        id = db.drawn;
        task_id = row.task_id;
        sequence = row.checkpoint_sequence + 1;
        payload = snapshot;
        sha256 = digest snapshot;
      } in
      record db {
        jobs = put db.jobs row.task_id advanced;
        checkpoints = saved ∷ db.checkpoints;
        drawn = db.drawn + 1;
      }

  with_checkpoint-numbers :
      (db : Db) (id : String)
      → IsWritable row db
      → checkpoint_numbers id (with_checkpoint db).checkpoints
        ≡ countdown (last_checkpoint (get (put db.jobs row.task_id advanced) id))
  with_checkpoint-numbers db id w = elim (Bool-cases (str_eq row.task_id id)) [
    | inl same ↦
        let e : row.task_id ≡ id = ground (arith, same, eq_iff row.task_id id) in
        let here : last_checkpoint (get db.jobs id) ≡ row.checkpoint_sequence =
          rw (sym e) w.numbered in
        simp (get-put, same)
          (rw (w.integral.checkpoints id, here) (sym (countdown_step row.checkpoint_sequence)))
    | inr different ↦ simp (get-put, different) (w.integral.checkpoints id)
  ]

  with_checkpoint-IsWritable :
      (db : Db) → IsSound row → IsWritable row db → IsWritable advanced (with_checkpoint db)
  with_checkpoint-IsWritable db s w = record {
    integral = record {
      events = w.integral.events;
      checkpoints = λ id. with_checkpoint-numbers db id w;
      keyed = λ id other e. elim (stored advanced db id other e) [
        | inl (new, here) ↦ rw (sym new) here
        | inr old ↦ w.integral.keyed id other old
      ];
      owned = λ id other e. elim (stored advanced db id other e) [
        | inl (new, here) ↦ rw (sym here) w.has_task
        | inr old ↦ w.integral.owned id other old
      ];
      unique = put-IsUnique db.jobs row.task_id advanced w.integral.unique;
      sound = λ id other e. elim (stored advanced db id other e) [
        | inl (new, here) ↦ rw (sym new) (record { leased = s.leased; single = s.single })
        | inr old ↦ w.integral.sound id other old
      ];
    };
    numbered = ap last_checkpoint (get-put_self db.jobs row.task_id advanced);
    has_task = w.has_task;
  }

  pub checkpoint-IsWritable :
      IsSound row
      → Ensures
          (IsWritable row)
          (checkpoint digest row snapshot)
          (λ row' db. IsWritable row' db × (row' ≡ advanced))
  unfolding checkpoint
  checkpoint-IsWritable s = record { holds = λ db w. (with_checkpoint-IsWritable db s w, refl) }
