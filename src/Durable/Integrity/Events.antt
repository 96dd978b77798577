-- ===== src/Durable/Integrity/Events.antt =====
-- orchestration/durable_repository.py, `event`: it keeps the database integral.
use auto_scholar.Prelude.{
  ◌+◌, String, ◌≡◌, refl, true, none, some, ◌∷◌, is_some, str_eq, eq_iff, arith, Option-cases,
  Bool-cases, inl, inr, sym,
}
use auto_scholar.Prelude.Table.{Table, get, put, get-put}
use auto_scholar.Prelude.Result.{ok, err}
use auto_scholar.Prelude.Ensures.{Ensures, After-at}
use auto_scholar.Snapshot.{Value}
use auto_scholar.Durable.Rows.{WorkflowJobRow, AgentTaskRow, WorkflowEventRow, Db}
use auto_scholar.Durable.Session.{event, workflow_not_found}
use auto_scholar.Durable.Integrity.{
  countdown, countdown_step, event_numbers, last_event, IsIntegral, IsWritable,
}

pub has_task-put :
    (tasks : Table AgentTaskRow) (id : String) (task : AgentTaskRow) (j : String)
    → is_some (get tasks j) ≡ true
    → is_some (get (put tasks id task) j) ≡ true
has_task-put tasks id task j h = ground (arith, get-put tasks id j task)

module _ (id : String) (kind : String) (payload : Table Value) (db : Db) (task : AgentTaskRow) where
  abbrev pub with_event : Db
  with_event =
      let sequence = task.event_sequence + 1 in
      let row : WorkflowEventRow = record {
        id = db.drawn;
        task_id = id;
        kind = kind;
        sequence = sequence;
        payload = payload;
      } in
      record db {
        tasks = put db.tasks id (record task { event_sequence = sequence });
        events = row ∷ db.events;
        drawn = db.drawn + 1;
      }

  with_event-numbers :
      (j : String)
      → get db.tasks id ≡ some task
      → event_numbers j db.events ≡ countdown (last_event (get db.tasks j))
      → event_numbers j with_event.events ≡ countdown (last_event (get with_event.tasks j))
  unfolding countdown
  with_event-numbers j found old = elim (Bool-cases (str_eq id j)) [
    | inl same ↦
        let e : id ≡ j = ground (arith, eq_iff id j) in
        let here : get db.tasks j ≡ some task = rw (sym e) found in
        simp (get-put, same) (rw (old, here) (sym (countdown_step task.event_sequence)))
    | inr other ↦ simp (get-put, other) old
  ]

  with_event-IsIntegral : get db.tasks id ≡ some task → IsIntegral db → IsIntegral with_event
  with_event-IsIntegral found w = record {
    events = λ j. with_event-numbers j found (w.events j);
    checkpoints = w.checkpoints;
    keyed = w.keyed;
    owned = λ j row e. has_task-put db.tasks id _ j (w.owned j row e);
    sound = w.sound;
    unique = w.unique;
  }

  with_event-IsWritable :
      (row : WorkflowJobRow)
      → get db.tasks id ≡ some task
      → IsWritable row db
      → IsWritable row with_event
  with_event-IsWritable row found w = record {
    integral = with_event-IsIntegral found w.integral;
    numbered = w.numbered;
    has_task = has_task-put db.tasks id _ row.task_id w.has_task;
  }

pub event_missing :
    (id kind : String) (payload : Table Value) (db : Db)
    → get db.tasks id ≡ none
    → event id kind payload db ≡ (err workflow_not_found, db)
unfolding event
event_missing id kind payload db h = rw (h, event) refl

pub event_found :
    (id kind : String) (payload : Table Value) (db : Db) (task : AgentTaskRow)
    → get db.tasks id ≡ some task
    → event id kind payload db ≡ (ok tt, with_event id kind payload db task)
unfolding event
event_found id kind payload db task h = rw (h, event) refl

pub event-IsWritable :
    (row : WorkflowJobRow) (id kind : String) (payload : Table Value)
    → Ensures (IsWritable row) (event id kind payload) (λ _. IsWritable row)
event-IsWritable row id kind payload = record {
  holds = λ db w. elim (Option-cases (get db.tasks id)) [
    | inl missing ↦ After-at (λ _. IsWritable row) (event_missing id kind payload db missing) tt
    | inr (task, found) ↦
        After-at (λ _. IsWritable row) (event_found id kind payload db task found)
          (with_event-IsWritable id kind payload db task row found w)
  ];
}

pub event-IsIntegral :
    (id kind : String) (payload : Table Value)
    → Ensures IsIntegral (event id kind payload) (λ _. IsIntegral)
event-IsIntegral id kind payload = record {
  holds = λ db w. elim (Option-cases (get db.tasks id)) [
    | inl missing ↦ After-at (λ _. IsIntegral) (event_missing id kind payload db missing) tt
    | inr (task, found) ↦
        After-at (λ _. IsIntegral) (event_found id kind payload db task found)
          (with_event-IsIntegral id kind payload db task found w)
  ];
}
