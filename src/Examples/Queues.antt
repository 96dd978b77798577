-- ===== src/Examples/Queues.antt =====
-- orchestration/durable_repository.py at concrete databases: one task, submitted and claimed.
use auto_scholar.Prelude.{
  ◌<◌, ℕ, ◌+◌, String, ◌≡◌, ◌≢◌, refl, true, false, Option, none, some, [], ◌∷◌, if◌then◌else◌,
  str_eq,
}
use auto_scholar.Prelude.Table.{Table, get, put}
use auto_scholar.Prelude.Result.{ok, err}
use auto_scholar.Budget.{default_limits}
use auto_scholar.Plan.{ExperimentSpecification, mlp, cnn}
use auto_scholar.Snapshot.{Value, text, Snapshot, planner, research}
use auto_scholar.Runs.{is_valid_snapshot}
use auto_scholar.Durable.Rows.{
  Status, queued, running, recovery_required, WorkflowJobRow, WorkflowApprovalRow, approved, Db,
}
use auto_scholar.Durable.Session.{
  validation_error, lease_lost, operation_uncertain, approval_required, idempotency_conflict,
  holds_lease, event, locked, fence, set_status, checkpoint, write_job,
}
use auto_scholar.Durable.Lease.{claim, claim_row, first_claimable}
use auto_scholar.Durable.Work.{begin, check_approval, journal, merge_spent, is_cancel_requested}
use auto_scholar.Durable.Save.{save, write_task, saved_status, may_stay_pending}
use auto_scholar.Durable.Enqueue.{new_job, enqueue, find_key}
use auto_scholar.Durable.Recovery
use auto_scholar.Durable.Integrity.{IsIntegral}
use auto_scholar.Durable.Integrity.Histories.{
  Reachable, fresh, next, submits, claims, history-IsIntegral,
}
use auto_scholar.Durable.Fencing.{WorkerCall, perform}
use auto_scholar.Durable.Generations.Since.{Since}
use auto_scholar.Durable.Claims.{claimed, Claimed, claim_fences}
use auto_scholar.Durable.Saved.{after_save, snapshot-save}
use auto_scholar.Durable.Submitted.{enqueue-enqueue}
use auto_scholar.Durable.Uncertain.{uncertain_blocks}
use auto_scholar.Durable.Expecting.{Expecting}
use auto_scholar.Durable.Approvals.Later.{Later}
use auto_scholar.Durable.Approved.{Consumed, begin_consumes}

abbrev pub specification : ExperimentSpecification
specification = record {
  name = "mnist-mlp-vs-cnn";
  models = mlp ∷ cnn ∷ [];
  seed = 42;
  epochs = 2;
  batch_size = 64;
  learning_rate = 1000;
  train_samples = 2048;
  test_samples = 1024;
}

abbrev pub survey : Snapshot
survey = record {
  stage = planner;
  task_id = "t";
  objective = "a survey";
  workflow_kind = research;
  as_of_date = "2026-01-01";
  specification = specification;
  limits = default_limits;
  project_id = none;
  model_profile_id = none;
  model_profile_name = none;
  model_name = none;
  document_ids = none;
  retrieval_mode = "hybrid_rerank";
  research_sources = "web" ∷ [];
  plan = none;
  version = 1;
  results = [];
  sources = [];
  previous_sources = [];
  review = none;
  answer = none;
  traces = 0;
  approval_threshold = 20000;
  memory_context = [];
  research_depth = "quick";
  quality = record { phase = "collect"; sections = []; accepted = false };
}

abbrev pub digest_of : Snapshot → String
digest_of s = s.objective

abbrev pub no_tasks : Db
no_tasks = record {
  tasks = [];
  jobs = [];
  checkpoints = [];
  events = [];
  approvals = [];
  plans = [];
  profiles = [];
  projects = [];
  documents = [];
  calls = [];
  operations = [];
  drawn = 0;
}

abbrev pub submitted : Db
submitted = (enqueue digest_of 0 survey "k" "h" false no_tasks).1

submitted-Reachable : Reachable submitted
submitted-Reachable =
    next no_tasks submitted
      (fresh no_tasks
        (record { no_jobs = refl; no_tasks = refl; no_events = refl; no_checkpoints = refl }))
      (submits digest_of 0 survey "k" "h" false)

history-IsIntegral_example : IsIntegral submitted
history-IsIntegral_example = history-IsIntegral submitted submitted-Reachable

first_submission : enqueue digest_of 0 survey "k" "h" false no_tasks ≡ (ok ("t", true), submitted)
unfolding enqueue find_key get checkpoint event put
first_submission = refl

enqueue-enqueue_example :
    enqueue digest_of 5 survey "k" "other" false submitted
    ≡ ((if str_eq "h" "other" then ok ("t", false) else err idempotency_conflict), submitted)
enqueue-enqueue_example =
    enqueue-enqueue digest_of 0 survey "k" "h" false no_tasks submitted "t" true first_submission 5
      survey "other" false

abbrev pub claimed_db : Db
claimed_db = (claim 1 1 "w" 30 none submitted).1

first_claim : claim 1 1 "w" 30 none submitted ≡ (ok (some ("t", 1)), claimed_db)
unfolding claim claim_row first_claimable enqueue find_key get checkpoint event put set_status
first_claim = refl

-- Every call under another generation is refused after the claim.
claim_fences_example :
    Claimed 1 none "w" 30000001 submitted claimed_db "t" 1
    × ((call : WorkerCall) (time : ℕ) (other_owner : String) (other : ℕ)
        → other ≢ 1
        → perform call time "t" other_owner other claimed_db ≡ (err lease_lost, claimed_db))
    × ((then_db : Db)
        → Since claimed_db then_db
        → (call : WorkerCall) (time : ℕ) (other_owner : String) (other : ℕ) → other < 1
        → perform call time "t" other_owner other then_db ≡ (err lease_lost, then_db))
claim_fences_example =
    claim_fences 1 1 "w" 30 none submitted claimed_db "t" 1 history-IsIntegral_example first_claim

pub claimed-IsIntegral : IsIntegral claimed_db
claimed-IsIntegral =
    history-IsIntegral claimed_db
      (next submitted claimed_db submitted-Reachable (claims 1 1 "w" 30 none))

abbrev pub claimed_job : WorkflowJobRow
claimed_job = claimed "w" 30000001 (record (new_job 0 survey "k" "h") { checkpoint_sequence = 1 })

claimed_stored : get claimed_db.jobs "t" ≡ some claimed_job
unfolding claim claim_row first_claimable enqueue find_key get checkpoint event put set_status
claimed_stored = refl

abbrev saved_db : Db
saved_db = (save digest_of 2 "t" "w" 1 survey [] 7 queued none claimed_db).1

first_save : save digest_of 2 "t" "w" 1 survey [] 7 queued none claimed_db ≡ (ok tt, saved_db)
unfolding claim claim_row first_claimable enqueue find_key get checkpoint event put set_status save
    locked fence merge_spent write_task
first_save = refl

abbrev saved_job : WorkflowJobRow
saved_job = after_save digest_of survey [] 7 (saved_status claimed_job queued none) claimed_job

snapshot-save_example :
    (holds_lease claimed_job "w" 1 2 ≡ true)
    × (get saved_db.jobs "t" ≡ some saved_job)
    × (saved_job.status ≡ (saved_status claimed_job queued none).0)
    × (saved_job.error_code ≡ (saved_status claimed_job queued none).1)
    × (saved_job.owner ≡ none)
    × (saved_job.checkpoint_sequence ≡ 1 + 1)
    × (survey.task_id ≡ "t"
        → (is_valid_snapshot survey ≡ true
            → Recovery.snapshot digest_of "t" saved_db ≡ (ok (survey, saved_job), saved_db))
          × (is_valid_snapshot survey ≡ false
              → Recovery.snapshot digest_of "t" saved_db ≡ (err validation_error, saved_db)))
unfolding merge_spent
snapshot-save_example =
    snapshot-save digest_of 2 "t" "w" 1 survey [] 7 queued none claimed_db saved_db claimed_job
      claimed-IsIntegral claimed_stored first_save

-- A job with an open call.
abbrev pub calling_job : WorkflowJobRow
calling_job = record claimed_job { pending_calls = ("c", "llm") ∷ [] }

abbrev calling_db : Db
calling_db = record no_tasks { jobs = ("t", calling_job) ∷ [] }

uncertain_blocks_example :
    ((active : Table Value)
      → begin 2 "t" "w" 1 active calling_db ≡ (err operation_uncertain, calling_db))
    × ((call_id kind : String) (usage : Table ℕ) (elapsed : ℕ)
        → str_eq kind "budget" ≡ false
        → str_eq kind "llm_local_rejected" ≡ false
        → journal 2 "t" "w" 1 call_id kind true usage elapsed calling_db
          ≡ (err operation_uncertain, calling_db))
    × ((status : Status) (code : Option String)
        → is_cancel_requested running ≡ false
        → may_stay_pending status ≡ false
        → saved_status calling_job status code
          ≡ (recovery_required, some "external_result_uncertain"))
unfolding get
uncertain_blocks_example = uncertain_blocks 2 "t" "w" 1 calling_db calling_job refl refl refl

abbrev training : WorkflowApprovalRow
training = record {
  id = 9;
  task_id = "t";
  operation_sha256 = "op";
  payload = record {
    task_id = "t";
    plan_version = 1;
    step_id = "e";
    specification = specification;
    source_sha256 = "src";
    budget_limits = default_limits;
    cost_units = 8192;
  };
  status = approved;
  reason = "";
  expires_at = 100;
  decided_at = some 1;
}

abbrev approved_db : Db
approved_db = record claimed_db { approvals = training ∷ [] }

abbrev train : Table Value
train = ("operation_sha256", text "op") ∷ []

approved_stored : get approved_db.jobs "t" ≡ some claimed_job
unfolding claim claim_row first_claimable enqueue find_key get checkpoint event put set_status
approved_stored = refl

abbrev begun_db : Db
begun_db = (begin 2 "t" "w" 1 train approved_db).1

first_begin : begin 2 "t" "w" 1 train approved_db ≡ (ok running, begun_db)
unfolding claim claim_row first_claimable enqueue find_key get checkpoint event put set_status begin
    locked fence write_job
first_begin = refl

begin_consumes_example :
    Consumed 2 "t" "op" approved_db.approvals begun_db.approvals
    × ((later : Db)
        → Later begun_db later
        → (time : ℕ) → check_approval time "t" (some "op") later ≡ (err approval_required, later))
unfolding get
begin_consumes_example =
    begin_consumes 2 "t" "w" 1 train "op" approved_db begun_db claimed_job running approved_stored
      refl refl refl first_begin
