-- ===== src/Durable/Enqueue.antt =====
-- orchestration/durable_repository.py: `enqueue`, the submission of a workflow under an idempotency key.
-- One transaction runs at a time here, so the race for a key that `IntegrityError` reports, and its
-- second look at the key, do not arise; a task identifier that is in use raises.
use auto_scholar.Prelude.{
  ℕ, String, Bool, true, false, not, ◌&&◌, ◌||◌, Option, none, some, List, [], ◌∷◌, map, is_empty,
  is_some, keep_if, str_eq, if◌then◌else◌,
}
use auto_scholar.Prelude.Table.{Table, get, put}
use auto_scholar.Prelude.Sets.{is_subset}
use auto_scholar.Prelude.Result.{ok, err, pure, raise, gets, refuse_if, transaction, ◌>>=◌, ◌>>◌}
use auto_scholar.Snapshot.{Snapshot, is_research, is_document_analysis}
use auto_scholar.Durable.Rows.{
  Db, queued, WorkflowJobRow, AgentTaskRow, ModelProfileRow, DocumentRow,
}
use auto_scholar.Durable.Session.{
  Session, idempotency_conflict, model_selection_required, task_type_removed,
  documents_selection_required, model_profile_unavailable, project_not_found,
  selected_documents_unavailable, integrity_error, event, checkpoint,
}
use auto_scholar.Durable.Lease.{text_before}

-- `select(WorkflowJobRow).where(idempotency_key == key)`.
unfoldable pub find_key : String → Table WorkflowJobRow → Option WorkflowJobRow
find_key key [] = none
find_key key ((_, row) ∷ rows) =
    if str_eq row.idempotency_key key then some row else find_key key rows

-- `if value:`, for a text or `None`.
abbrev pub is_given : Option String → Bool
is_given none = false
is_given (some s) = not (str_eq s "")

-- `not snapshot.document_ids`, and `snapshot.document_ids == []`.
abbrev pub no_documents : Option (List String) → Bool
no_documents none = true
no_documents (some ids) = is_empty ids

abbrev pub disabled_documents : Option (List String) → Bool
disabled_documents none = false
disabled_documents (some ids) = is_empty ids

-- The checks of a request that must name a managed model.
unfoldable pub check_managed : Bool → Snapshot → Session (Unit {0})
check_managed false snapshot = pure tt
check_managed true snapshot = do
  refuse_if (not (is_given snapshot.model_profile_id)) model_selection_required
  refuse_if (not (is_research snapshot.workflow_kind)) task_type_removed
  refuse_if
      (is_document_analysis snapshot.workflow_kind
        && (not (is_given snapshot.project_id) || disabled_documents snapshot.document_ids))
      documents_selection_required

unfoldable pub with_profile : Snapshot → Option ModelProfileRow → Session Snapshot
with_profile snapshot none = raise model_profile_unavailable
with_profile snapshot (some profile) =
    if profile.enabled
    then pure (record snapshot {
      model_profile_name = some profile.name;
      model_name = some profile.model;
    })
    else raise model_profile_unavailable

unfoldable pub resolve_profile : Snapshot → Option String → Session Snapshot
unfolding with_profile
resolve_profile snapshot none = pure snapshot
resolve_profile snapshot (some id) = do
  profile ← gets (λ db. get db.profiles id)
  if is_given (some id) then with_profile snapshot profile else pure snapshot

-- A project is missing, or its flag says that it is deleted.
abbrev pub is_open_project : Option Bool → Bool
is_open_project none = false
is_open_project (some deleted) = not deleted

unfoldable pub check_project : Option String → Session (Unit {0})
check_project none = pure tt
check_project (some id) = do
  found ← gets (λ db. get db.projects id)
  refuse_if (is_given (some id) && not (is_open_project found)) project_not_found

insert_id : String → List String → List String
insert_id id [] = id ∷ []
insert_id id (other ∷ ids) =
    if text_before other id then other ∷ insert_id id ids else id ∷ other ∷ ids

-- `order_by(DocumentRow.id)`.
unfoldable pub sort_ids : List String → List String
unfolding insert_id
sort_ids [] = []
sort_ids (id ∷ ids) = insert_id id (sort_ids ids)

abbrev is_ready_in : String → DocumentRow → Bool
is_ready_in project_id row = str_eq row.project_id project_id && row.is_ready

abbrev ready_ids : String → List DocumentRow → List String
ready_ids project_id rows =
    map (λ (row : DocumentRow). row.id) (keep_if (is_ready_in project_id) rows)

unfoldable pub frozen_ids : Snapshot → List DocumentRow → Option (List String)
unfolding sort_ids
frozen_ids snapshot rows = elim snapshot.document_ids [
  | some ids ↦ some ids
  | none ↦ elim snapshot.project_id [
    | none ↦ none
    | some project_id ↦
        if is_research snapshot.workflow_kind
        then some (sort_ids (ready_ids project_id rows))
        else none
  ]
]

-- `project_id and ready_ids == set(document_ids)`, over the documents that are asked for.
abbrev are_ready : Option String → List String → List DocumentRow → Bool
are_ready none ids rows = false
are_ready (some project_id) ids rows =
    is_given (some project_id) && is_subset ids (ready_ids project_id rows)

-- `if snapshot.document_ids:` and its test.
abbrev pub documents_ready : Snapshot → Db → Bool
documents_ready snapshot db = elim snapshot.document_ids [
  | none ↦ true
  | some ids ↦ is_empty ids || are_ready snapshot.project_id ids db.documents
]

unfoldable pub check_documents : Snapshot → Session (Unit {0})
check_documents snapshot = do
  ready ← gets (documents_ready snapshot)
  refuse_if (not ready) selected_documents_unavailable

-- The snapshot with what the submission resolves: the model's names and the documents.
unfoldable pub resolve : Bool → Snapshot → Session Snapshot
unfolding check_managed resolve_profile check_project check_documents frozen_ids
resolve require_managed snapshot = do
  check_managed require_managed snapshot
  named ← resolve_profile snapshot snapshot.model_profile_id
  check_project named.project_id
  ids ← gets (λ db. frozen_ids named db.documents)
  let frozen = record named { document_ids = ids }
  check_documents frozen
  refuse_if
      (require_managed
        && is_document_analysis frozen.workflow_kind
        && no_documents frozen.document_ids)
      documents_selection_required
  pure frozen

abbrev pub new_task : Snapshot → AgentTaskRow
new_task snapshot = record {
  id = snapshot.task_id;
  objective = snapshot.objective;
  project_id = snapshot.project_id;
  parent_task_id = none;
  status = queued;
  mode = "autonomous";
  plan = [];
  metrics = [];
  research_sources = snapshot.research_sources;
  event_sequence = 0;
  answer = none;
  error_code = none;
  error_message = none;
}

abbrev pub new_job : ℕ → Snapshot → String → String → WorkflowJobRow
new_job now snapshot key request_hash = record {
  task_id = snapshot.task_id;
  idempotency_key = key;
  request_sha256 = request_hash;
  status = queued;
  checkpoint_sequence = 0;
  owner = none;
  generation = 0;
  lease_until = none;
  active = [];
  pending_calls = [];
  usage = [];
  active_seconds = 0;
  error_code = none;
  created_at = now;
}

unfoldable pub add_task : AgentTaskRow → Session (Unit {0})
add_task task db =
    if is_some (get db.tasks task.id)
    then (err integrity_error, db)
    else (ok tt, record db { tasks = put db.tasks task.id task })

unfoldable pub insert :
    (Snapshot → String) → ℕ → Snapshot → String → String → Session (String × Bool)
unfolding add_task
insert digest now snapshot key request_hash = do
  add_task (new_task snapshot)
  checkpoint digest (new_job now snapshot key request_hash) snapshot
  event snapshot.task_id "submitted" []
  pure (snapshot.task_id, true)

-- A key that is in use answers with its task, if the request is the same.
unfoldable pub submit_new :
    (Snapshot → String)
    → ℕ
    → Snapshot
    → String
    → String
    → Bool
    → Option WorkflowJobRow
    → Session (String × Bool)
unfolding resolve insert
submit_new digest now snapshot key request_hash require_managed (some existing) =
    if str_eq existing.request_sha256 request_hash
    then pure (existing.task_id, false)
    else raise idempotency_conflict
submit_new digest now snapshot key request_hash require_managed none = do
  resolved ← resolve require_managed snapshot
  insert digest now resolved key request_hash

unfoldable pub enqueue :
    (Snapshot → String) → ℕ → Snapshot → String → String → Bool → Session (String × Bool)
unfolding submit_new
enqueue digest now snapshot key request_hash require_managed = transaction (do
  existing ← gets (λ db. find_key key db.jobs)
  submit_new digest now snapshot key request_hash require_managed existing)
