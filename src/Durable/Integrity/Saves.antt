-- ===== src/Durable/Integrity/Saves.antt =====
-- orchestration/durable_repository.py: `save` keeps the database integral.
use auto_scholar.Prelude.{
  ℕ, String, ◌≡◌, refl, false, Option, none, some, [], ◌∷◌, arith, sym, Option-cases, inl, inr,
}
use auto_scholar.Prelude.Table.{Table, get}
use auto_scholar.Prelude.Result.{ok, err}
use auto_scholar.Prelude.Ensures.{
  Ensures, After-at, Keeps, Ensures-bind, Ensures-assume, Ensures-weaken,
}
use auto_scholar.Snapshot.{Value, text, number, Snapshot}
use auto_scholar.Durable.Rows.{Status, is_leased, WorkflowJobRow, AgentTaskRow, Db}
use auto_scholar.Durable.Session.{assertion_failed}
use auto_scholar.Durable.Lease.{status_text}
use auto_scholar.Durable.Work.{merge_spent}
use auto_scholar.Durable.Save.{
  save, save_held, saved_status, released, write_task, saved_task, stage_text,
}
use auto_scholar.Durable.Integrity.{IsSound, IsIntegral, IsWritable}
use auto_scholar.Durable.Integrity.Events.{event-IsWritable}
use auto_scholar.Durable.Integrity.Tasks.{set_status-IsWritable, with_task, with_task-IsWritable}
use auto_scholar.Durable.Integrity.Jobs.{checkpoint-IsWritable}
use auto_scholar.Durable.Integrity.Guards.{fenced_update, change}

-- A worker's save leaves no job under a lease.
saved_status-is_leased :
    (row : WorkflowJobRow) (status : Status) (error_code : Option String)
    → is_leased status ≡ false
    → is_leased (saved_status row status error_code).0 ≡ false
unfolding saved_status
saved_status-is_leased row status error_code h = ground arith

pub write_task_found :
    (id : String) (snapshot : Snapshot) (status : Status) (db : Db) (task : AgentTaskRow)
    → get db.tasks id ≡ some task
    → write_task id snapshot status db
      ≡ (ok tt, with_task id (saved_task id snapshot status db.tasks task) db)
unfolding write_task
write_task_found id snapshot status db task h = rw (h, write_task) refl

pub write_task_missing :
    (id : String) (snapshot : Snapshot) (status : Status) (db : Db)
    → get db.tasks id ≡ none
    → write_task id snapshot status db ≡ (err assertion_failed, db)
unfolding write_task
write_task_missing id snapshot status db h = rw (h, write_task) refl

write_task-IsWritable :
    (row : WorkflowJobRow) (id : String) (snapshot : Snapshot) (status : Status)
    → Ensures (IsWritable row) (write_task id snapshot status) (λ _. IsWritable row)
write_task-IsWritable row id snapshot status = record {
  holds = λ db w. elim (Option-cases (get db.tasks id)) [
    | inl missing ↦
        After-at (λ _. IsWritable row) (write_task_missing id snapshot status db missing) tt
    | inr (task, found) ↦
        After-at (λ _. IsWritable row) (write_task_found id snapshot status db task found)
          (with_task-IsWritable id row db task (saved_task id snapshot status db.tasks task) found
            refl w)
  ];
}

save_held-IsIntegral :
    (digest : Snapshot → String) (task_id : String) (snapshot : Snapshot) (usage : Table ℕ)
    (elapsed : ℕ) (decided : Status × Option String) (row : WorkflowJobRow)
    → is_leased decided.0 ≡ false
    → IsSound row
    → Ensures
        (IsWritable row)
        (save_held digest task_id snapshot usage elapsed decided row)
        (λ _. IsIntegral)
unfolding merge_spent
save_held-IsIntegral digest task_id snapshot usage elapsed decided row free s =
    change row merged refl refl (
      Ensures-bind
        (checkpoint-IsWritable digest merged snapshot
          (record { leased = s.leased; single = s.single }))
        (λ row'. Ensures-assume (λ e. change row' (released decided.0 row') refl refl (
          Ensures-bind
            (set_status-IsWritable (released decided.0 row') decided.0
              (record { leased = sym free; single = rw e s.single }))
            (λ row''.
              Ensures-bind
                (Ensures-weaken (write_task-IsWritable row'' task_id snapshot decided.0)
                  (λ db (w, same). w) (λ _ db w. w))
                (λ _.
                  Ensures-weaken (event-IsWritable row'' task_id "checkpoint_saved" (payload row'))
                    (λ db w. w) (λ _ db w. w.integral)))))))
  where
    payload : WorkflowJobRow → Table Value
    payload row' =
        ("sequence", number row'.checkpoint_sequence)
        ∷ ("stage", text (stage_text snapshot.stage))
        ∷ ("status", text (status_text decided.0))
        ∷ []

    merged : WorkflowJobRow
    merged = record (merge_spent usage elapsed row) { error_code = decided.1 }

pub save-IsIntegral :
    (digest : Snapshot → String) (now : ℕ) (task_id owner : String) (generation : ℕ)
    (snapshot : Snapshot) (usage : Table ℕ) (elapsed : ℕ) (status : Status)
    (error_code : Option String)
    → is_leased status ≡ false
    → Keeps IsIntegral
        (save digest now task_id owner generation snapshot usage elapsed status error_code)
unfolding save
save-IsIntegral digest now task_id owner generation snapshot usage elapsed status error_code free =
    fenced_update now task_id owner generation
      (λ row.
        save_held digest task_id snapshot usage elapsed (saved_status row status error_code) row)
      (λ row s e.
        save_held-IsIntegral digest task_id snapshot usage elapsed _ row
          (saved_status-is_leased row status error_code free) s)
