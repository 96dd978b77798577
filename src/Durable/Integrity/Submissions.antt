-- ===== src/Durable/Integrity/Submissions.antt =====
-- orchestration/durable_repository.py: `enqueue` keeps the database integral.
use auto_scholar.Prelude.{
  ℕ, String, ◌≡◌, refl, Bool, true, false, not, ◌&&◌, ◌||◌, Option, none, some, [], arith,
  Option-cases, inl, inr, str_eq,
}
use auto_scholar.Prelude.Table.{get}
use auto_scholar.Prelude.Result.{ok, err, refuse_if}
use auto_scholar.Prelude.Ensures.{
  Ensures, After-at, Keeps, Keeps-transaction, Ensures-bind, Ensures-assume, Ensures-weaken,
  Ensures-pure, Ensures-raise, Ensures-gets, Ensures-if, Ensures-refuse_if,
}
use auto_scholar.Snapshot.{Snapshot, is_research, is_document_analysis}
use auto_scholar.Durable.Rows.{WorkflowJobRow, ModelProfileRow, Db}
use auto_scholar.Durable.Session.{
  Error, model_selection_required, task_type_removed, documents_selection_required,
  model_profile_unavailable, project_not_found, selected_documents_unavailable,
  idempotency_conflict, integrity_error,
}
use auto_scholar.Durable.Enqueue.{
  find_key, is_given, no_documents, disabled_documents, check_managed, with_profile,
  resolve_profile, check_project, is_open_project, frozen_ids, check_documents, documents_ready,
  resolve, new_task, new_job, add_task, insert, submit_new, enqueue,
}
use auto_scholar.Durable.Integrity.{IsIntegral, IsWritable}
use auto_scholar.Durable.Integrity.Events.{event-IsWritable}
use auto_scholar.Durable.Integrity.Jobs.{checkpoint-IsWritable}
use auto_scholar.Durable.Integrity.Tasks.{with_task, with_new_task-IsWritable}

-- The checks before a submission change nothing.
refuse : {P : Db → Type 0} (test : Bool) (e : Error) → Ensures P (refuse_if test e) (λ _. P)
refuse test e = Ensures-weaken (Ensures-refuse_if test e) (λ db p. p) (λ _ db (p, passed). p)

module _ {P : Db → Type 0} where
  check_managed-Ensures :
      (require_managed : Bool) (snapshot : Snapshot)
      → Ensures P (check_managed require_managed snapshot) (λ _. P)
  unfolding check_managed
  check_managed-Ensures false snapshot = Ensures-pure tt (λ db p. p)
  check_managed-Ensures true snapshot =
      Ensures-bind (refuse (not (is_given snapshot.model_profile_id)) model_selection_required)
        (λ _.
          Ensures-bind (refuse (not (is_research snapshot.workflow_kind)) task_type_removed) (λ _.
            refuse
              (is_document_analysis snapshot.workflow_kind
                && (not (is_given snapshot.project_id) || disabled_documents snapshot.document_ids))
              documents_selection_required))

  with_profile-Ensures :
      (snapshot : Snapshot) (profile : Option ModelProfileRow)
      → Ensures P (with_profile snapshot profile) (λ _. P)
  unfolding with_profile
  with_profile-Ensures snapshot none = Ensures-raise model_profile_unavailable
  with_profile-Ensures snapshot (some profile) =
      Ensures-if profile.enabled (λ _. Ensures-pure _ (λ db p. p))
        (λ _. Ensures-raise model_profile_unavailable)

  resolve_profile-Ensures :
      (snapshot : Snapshot) (id : Option String) → Ensures P (resolve_profile snapshot id) (λ _. P)
  unfolding resolve_profile
  resolve_profile-Ensures snapshot none = Ensures-pure snapshot (λ db p. p)
  resolve_profile-Ensures snapshot (some id) =
      Ensures-bind (Ensures-gets {Q = λ _. P} (λ (db : Db). get db.profiles id) (λ db p. p))
        (λ found.
          Ensures-if (is_given (some id)) (λ _. with_profile-Ensures snapshot found)
            (λ _. Ensures-pure snapshot (λ db p. p)))

  check_project-Ensures : (id : Option String) → Ensures P (check_project id) (λ _. P)
  unfolding check_project
  check_project-Ensures none = Ensures-pure tt (λ db p. p)
  check_project-Ensures (some id) =
      Ensures-bind (Ensures-gets {Q = λ _. P} (λ (db : Db). get db.projects id) (λ db p. p))
        (λ found. refuse (is_given (some id) && not (is_open_project found)) project_not_found)

  check_documents-Ensures : (snapshot : Snapshot) → Ensures P (check_documents snapshot) (λ _. P)
  unfolding check_documents
  check_documents-Ensures snapshot =
      Ensures-bind (Ensures-gets {Q = λ _. P} (documents_ready snapshot) (λ db p. p))
        (λ ready. refuse (not ready) selected_documents_unavailable)

  pub resolve-Ensures :
      (require_managed : Bool) (snapshot : Snapshot)
      → Ensures P (resolve require_managed snapshot) (λ _. P)
  unfolding resolve
  resolve-Ensures require_managed snapshot =
      Ensures-bind (check_managed-Ensures require_managed snapshot) (λ _.
        Ensures-bind (resolve_profile-Ensures snapshot snapshot.model_profile_id) (λ named.
          Ensures-bind (check_project-Ensures named.project_id) (λ _.
            Ensures-bind
              (Ensures-gets {Q = λ _. P} (λ (db : Db). frozen_ids named db.documents) (λ db p. p))
              (λ ids.
                Ensures-bind (check_documents-Ensures (record named { document_ids = ids })) (λ _.
                  Ensures-bind
                    (refuse
                      (require_managed
                        && is_document_analysis named.workflow_kind
                        && no_documents ids)
                      documents_selection_required)
                    (λ _. Ensures-pure (record named { document_ids = ids }) (λ db p. p)))))))

add_task-IsWritable :
    (now : ℕ) (snapshot : Snapshot) (key request_hash : String)
    → Ensures IsIntegral
        (add_task (new_task snapshot))
        (λ _. IsWritable (new_job now snapshot key request_hash))
unfolding add_task
add_task-IsWritable now snapshot key request_hash = record {
  holds = λ db w. elim (Option-cases (get db.tasks snapshot.task_id)) [
    | inr (task, found) ↦
        let out : add_task (new_task snapshot) db ≡ (err integrity_error, db) =
          rw (found, add_task) refl in
        After-at (λ _. IsWritable (new_job now snapshot key request_hash)) out tt
    | inl missing ↦
        let out : add_task (new_task snapshot) db
            ≡ (ok tt, with_task snapshot.task_id (new_task snapshot) db) =
          rw (missing, add_task) refl in
        After-at (λ _. IsWritable (new_job now snapshot key request_hash)) out
          (with_new_task-IsWritable (new_job now snapshot key request_hash) (new_task snapshot) db
            missing refl refl w)
  ];
}

insert-IsIntegral :
    (digest : Snapshot → String) (now : ℕ) (snapshot : Snapshot) (key request_hash : String)
    → Ensures IsIntegral (insert digest now snapshot key request_hash) (λ _. IsIntegral)
unfolding insert
insert-IsIntegral digest now snapshot key request_hash =
    Ensures-bind (add_task-IsWritable now snapshot key request_hash) (λ _.
      Ensures-bind
        (checkpoint-IsWritable digest (new_job now snapshot key request_hash) snapshot
          (record { leased = refl; single = omega arith }))
        (λ row. Ensures-assume (λ e.
          Ensures-bind (event-IsWritable row snapshot.task_id "submitted" [])
            (λ _. Ensures-pure (snapshot.task_id, true) (λ db w. w.integral)))))

submit_new-IsIntegral :
    (digest : Snapshot → String) (now : ℕ) (snapshot : Snapshot) (key request_hash : String)
    (require_managed : Bool) (existing : Option WorkflowJobRow)
    → Ensures IsIntegral
        (submit_new digest now snapshot key request_hash require_managed existing)
        (λ _. IsIntegral)
unfolding submit_new
submit_new-IsIntegral digest now snapshot key request_hash require_managed (some existing) =
    Ensures-if (str_eq existing.request_sha256 request_hash) (λ same. Ensures-pure _ (λ db w. w))
      (λ other. Ensures-raise idempotency_conflict)
submit_new-IsIntegral digest now snapshot key request_hash require_managed none =
    Ensures-bind (resolve-Ensures require_managed snapshot)
      (λ resolved. insert-IsIntegral digest now resolved key request_hash)

pub enqueue-IsIntegral :
    (digest : Snapshot → String) (now : ℕ) (snapshot : Snapshot) (key request_hash : String)
    (require_managed : Bool)
    → Keeps IsIntegral (enqueue digest now snapshot key request_hash require_managed)
unfolding enqueue
enqueue-IsIntegral digest now snapshot key request_hash require_managed = Keeps-transaction _ (
    Ensures-bind
      (Ensures-gets {Q = λ _. IsIntegral} (λ (db : Db). find_key key db.jobs) (λ db w. w))
      (λ existing.
        submit_new-IsIntegral digest now snapshot key request_hash require_managed existing))
