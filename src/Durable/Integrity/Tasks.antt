-- ===== src/Durable/Integrity/Tasks.antt =====
-- orchestration/durable_repository.py: the writes of a task, and `status`, which writes a job too.
use auto_scholar.Prelude.{
  String, ◌≡◌, refl, none, some, is_some, str_eq, eq_iff, arith, Option-cases, Bool-cases, ◌⊎◌, inl,
  inr, ap, sym, ◌∙◌,
}
use auto_scholar.Prelude.Table.{Table, get, put, get-put, get-put_self}
use auto_scholar.Prelude.Result.{ok, err}
use auto_scholar.Prelude.Ensures.{Ensures, After-at}
use auto_scholar.Snapshot.{Value}
use auto_scholar.Durable.Rows.{Status, WorkflowJobRow, AgentTaskRow, Db}
use auto_scholar.Durable.Session.{assertion_failed, event, set_status, metrics_of, message_of}
use auto_scholar.Durable.Integrity.Events.{has_task-put, event_missing, event_found}
use auto_scholar.Durable.Integrity.Jobs.{with_job, with_job-IsWritable}
use auto_scholar.Durable.Integrity.{
  countdown, event_numbers, last_event, last_checkpoint, IsSound, IsIntegral, IsWritable,
}

abbrev pub with_task : String → AgentTaskRow → Db → Db
with_task id task db = record db { tasks = put db.tasks id task }

-- A task in place of the stored one, with its counter.
module _ (id : String) (row : WorkflowJobRow) (db : Db) (task task' : AgentTaskRow) where
  pub with_task-IsWritable :
      get db.tasks id ≡ some task
      → task'.event_sequence ≡ task.event_sequence
      → IsWritable row db
      → IsWritable row (with_task id task' db)
  with_task-IsWritable found kept w = record {
    integral = record {
      events = λ j. same_events j;
      checkpoints = w.integral.checkpoints;
      keyed = w.integral.keyed;
      owned = λ j other e. has_task-put db.tasks id task' j (w.integral.owned j other e);
      sound = w.integral.sound;
      unique = w.integral.unique;
    };
    numbered = w.numbered;
    has_task = has_task-put db.tasks id task' row.task_id w.has_task;
  }
    where
      same_events :
          (j : String)
          → event_numbers j db.events ≡ countdown (last_event (get (put db.tasks id task') j))
      same_events j = elim (Bool-cases (str_eq id j)) [
        | inl same ↦
            let e : id ≡ j = ground (arith, same, eq_iff id j) in
            let here : get db.tasks j ≡ some task = rw (sym e) found in
            rw (w.integral.events j, get-put, same) (ap countdown (ap last_event here ∙ sym kept))
        | inr different ↦ rw (get-put, different) (w.integral.events j)
      ]

-- A new task and a job that is to go with it.
pub with_new_task-IsWritable :
    (row : WorkflowJobRow) (task : AgentTaskRow) (db : Db)
    → get db.tasks row.task_id ≡ none
    → task.event_sequence ≡ 0
    → row.checkpoint_sequence ≡ 0
    → IsIntegral db
    → IsWritable row (with_task row.task_id task db)
with_new_task-IsWritable row task db missing new_events new_checkpoints w = record {
  integral = record {
    events = λ j. same_events j;
    checkpoints = w.checkpoints;
    keyed = w.keyed;
    owned = λ j other e. has_task-put db.tasks row.task_id task j (w.owned j other e);
    sound = w.sound;
    unique = w.unique;
  };
  numbered = no_job (Option-cases (get db.jobs row.task_id));
  has_task = ap is_some (get-put_self db.tasks row.task_id task);
}
  where
    no_job :
        (get db.jobs row.task_id ≡ none)
          ⊎ ((old : WorkflowJobRow) × (get db.jobs row.task_id ≡ some old))
        → last_checkpoint (get db.jobs row.task_id) ≡ row.checkpoint_sequence
    no_job (inl absent) = rw absent (sym new_checkpoints)
    no_job (inr (old, found)) = absurd (cc (missing, w.owned row.task_id old found))

    same_events :
        (j : String)
        → event_numbers j db.events ≡ countdown (last_event (get (put db.tasks row.task_id task) j))
    same_events j = elim (Bool-cases (str_eq row.task_id j)) [
      | inl same ↦
          let e : row.task_id ≡ j = ground (arith, same, eq_iff row.task_id j) in
          let here : get db.tasks j ≡ none = rw (sym e) missing in
          rw (w.events j, get-put, same) (ap countdown (ap last_event here ∙ sym new_events))
      | inr different ↦ rw (get-put, different) (w.events j)
    ]

abbrev pub status_task : WorkflowJobRow → Status → AgentTaskRow → AgentTaskRow
status_task row status task = record task {
  status = status;
  metrics = metrics_of row;
  error_code = row.error_code;
  error_message = message_of status;
}

pub set_status_found :
    (row : WorkflowJobRow) (status : Status) (db : Db) (task : AgentTaskRow)
    → get db.tasks row.task_id ≡ some task
    → set_status row status db ≡ (
      ok (record row { status = status }),
      record db {
        jobs = put db.jobs row.task_id (record row { status = status });
        tasks = put db.tasks row.task_id (status_task row status task);
      },
    )
unfolding set_status
set_status_found row status db task h = rw (h, set_status) refl

pub set_status-IsWritable :
    (row : WorkflowJobRow) (status : Status)
    → IsSound (record row { status = status })
    → Ensures
        (IsWritable row)
        (set_status row status)
        (λ row' db. IsWritable row' db × (row' ≡ record row { status = status }))
set_status-IsWritable row status s = record {
  holds = λ db w. elim (Option-cases (get db.tasks row.task_id)) [
    | inl missing ↦ absurd (cc (missing, w.has_task))
    | inr (task, found) ↦
        After-at (λ row' db. IsWritable row' db × (row' ≡ record row { status = status }))
          (set_status_found row status db task found)
          (
            with_task-IsWritable row.task_id (record row { status = status })
                (with_job (record row { status = status }) db (same w) s) task _ found refl
                (with_job-IsWritable (record row { status = status }) db (same w) s),
            refl,
          )
  ];
}
  where
    same : {db : Db} → IsWritable row db → IsWritable (record row { status = status }) db
    same w = record { integral = w.integral; numbered = w.numbered; has_task = w.has_task }

-- An event leaves the jobs as they are.
pub event-jobs :
    (P : Table WorkflowJobRow → Type 0) (id kind : String) (payload : Table Value)
    → Ensures (λ (db : Db). P db.jobs) (event id kind payload) (λ _ db. P db.jobs)
event-jobs P id kind payload = record {
  holds = λ db p. elim (Option-cases (get db.tasks id)) [
    | inl missing ↦
        After-at (λ _ (db : Db). P db.jobs) (event_missing id kind payload db missing) tt
    | inr (task, found) ↦
        After-at (λ _ (db : Db). P db.jobs) (event_found id kind payload db task found) p
  ];
}

pub set_status_missing :
    (row : WorkflowJobRow) (status : Status) (db : Db)
    → get db.tasks row.task_id ≡ none
    → set_status row status db ≡ (err assertion_failed, db)
unfolding set_status
set_status_missing row status db h = rw (h, set_status) refl
