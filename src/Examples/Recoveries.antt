-- ===== src/Examples/Recoveries.antt =====
-- orchestration/durable.py, `reconcile`, at a workflow whose planner was interrupted after its plan was saved.
use auto_scholar.Prelude.{◌≡◌, refl, some, [], ◌∷◌}
use auto_scholar.Prelude.Table.{Table, get, put}
use auto_scholar.Prelude.Result.{ok}
use auto_scholar.Plan.{validate_graph, index, first_error, resolves, check_coding}
use auto_scholar.Prelude.Sets.{distinct}
use auto_scholar.Snapshot.{Value, text, number}
use auto_scholar.Runs.{restore}
use auto_scholar.Durable.Rows.{Db, recovery_required, queued}
use auto_scholar.Durable.Session.{event, locked, fence, checkpoint, set_status, write_job}
use auto_scholar.Durable.Lease.{claim, claim_row, first_claimable}
use auto_scholar.Durable.Enqueue.{enqueue, find_key}
use auto_scholar.Durable.Work.{begin, start_unit, merge_spent}
use auto_scholar.Durable.Save.{save, write_task}
use auto_scholar.Durable.Recovery.{
  snapshot, read_checkpoint, reconcile_calls, queue_reconciled, settle_calls, authorize_recovery,
}
use auto_scholar.Durable.Integrity.{IsIntegral}
use auto_scholar.Durable.Integrity.Works.{begin-IsIntegral}
use auto_scholar.Durable.Integrity.Saves.{save-IsIntegral}
use auto_scholar.Workflow.{validate_plan, check_steps, check_step}
use auto_scholar.Worker.Reconcile.{
  reconcile, recover_run, recover_planner, verify_sources, sources_failure,
}
use auto_scholar.Worker.Attempts.{Worker}
use auto_scholar.Worker.Recover.{verify_unit, requeue, recover_unit, recover_calls, recover}
use auto_scholar.Worker.Recover.Settled.{IsSettled, recover-IsSettled}
use auto_scholar.Examples.Queues.{survey, digest_of, claimed_db, claimed-IsIntegral}
use auto_scholar.Examples.Workers.{plan, clock, worker}

abbrev planning : Table Value
planning = ("stage", text "planner") ∷ ("version", number 1) ∷ []

abbrev planning_db : Db
planning_db = (begin 2 "t" "w" 1 planning claimed_db).1

abbrev waiting_db : Db
waiting_db =
    (save digest_of 3 "t" "w" 1 survey [] 7 recovery_required (some "workflow_interrupted")
      planning_db).1

waiting-IsIntegral : IsIntegral waiting_db
waiting-IsIntegral =
    save-IsIntegral digest_of 3 "t" "w" 1 survey [] 7 recovery_required
      (some "workflow_interrupted") refl planning_db
      (begin-IsIntegral 2 "t" "w" 1 planning claimed_db claimed-IsIntegral)

abbrev knowing_worker : Worker
knowing_worker = record worker { records = record worker.records { plans = (1, plan) ∷ [] } }

abbrev queued_db : Db
queued_db = (recover knowing_worker clock "t" 2 waiting_db).1

recovered_ok : recover knowing_worker clock "t" 2 waiting_db ≡ (ok (queued, []), queued_db)
unfolding recover recover_calls recover_unit requeue verify_unit reconcile recover_run
    recover_planner verify_sources sources_failure validate_plan check_steps check_step
    validate_graph restore snapshot read_checkpoint reconcile_calls settle_calls authorize_recovery
    queue_reconciled claim claim_row first_claimable enqueue find_key get put checkpoint event
    set_status locked fence write_job begin start_unit save merge_spent write_task index first_error
    auto_scholar.Plan.check_step distinct resolves check_coding auto_scholar.Runs.model_validate
    auto_scholar.Budget.validate
recovered_ok = refl

recover-IsSettled_example : IsIntegral queued_db × IsSettled knowing_worker clock "t" 2 waiting_db
recover-IsSettled_example =
    recover-IsSettled knowing_worker clock "t" 2 [] waiting_db queued_db recovered_ok
      waiting-IsIntegral
