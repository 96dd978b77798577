-- ===== src/Examples/Workers.antt =====
-- orchestration/durable.py and orchestration/service.py at one research workflow with one step.
use auto_scholar.Prelude.{true, false, ◌≡◌, refl, none, some, [], ◌∷◌}
use auto_scholar.Prelude.Table.{get, put}
use auto_scholar.Prelude.Result.{ok, err, pure, modify}
use auto_scholar.Prelude.Ensures.{Ensures}
use auto_scholar.Budget.{default_limits, consume, charge, check}
use auto_scholar.Plan.{PlanStep, TaskPlan, research}
use auto_scholar.Plan.Progress.{ready_step}
use auto_scholar.Snapshot.{text, planner, executor, reviewer, writer, done, pass, ReviewResult}
use auto_scholar.Runs.{Run, restore}
use auto_scholar.Durable.Rows.{Db}
use auto_scholar.Durable.Session.{
  event, locked, fence, checkpoint, set_status, write_job, merge_usage,
}
use auto_scholar.Durable.Lease.{claim, claim_row, first_claimable}
use auto_scholar.Durable.Enqueue.{enqueue, find_key}
use auto_scholar.Durable.Work.{journal, lift, merge_spent, journal_calls}
use auto_scholar.Durable.Integrity.{IsIntegral}
use auto_scholar.Worker.{Flow, World, Agents, Claim, Clock}
use auto_scholar.Worker.Unit.{
  unit, run_executor, work_on, persist_budget, plan_steps, next_stage, after_execution,
  after_review, after_verdict,
}
use auto_scholar.Worker.Stages.{Anything, Edge, unit-Edge}
use auto_scholar.Worker.Reviewed.{Units, start, next, WasPassed, units-WasPassed}
use auto_scholar.Worker.Execute.{caught, execute}
use auto_scholar.Worker.Attempts.{Worker, attempt}
use auto_scholar.Worker.Outcomes.{IsCaught, caught-IsConcluded}
use auto_scholar.Worker.Integrity.{AreCareful}
use auto_scholar.Worker.Integrity.Jobs.{execute-IsIntegral}
use auto_scholar.Examples.Queues.{
  survey, digest_of, claimed_db, claimed_job, calling_job, claimed-IsIntegral,
}

abbrev search_step : PlanStep
search_step = record {
  id = "s";
  kind = research;
  description = "search";
  dependencies = [];
  expected_output = "notes";
  specification = none;
}

abbrev pub plan : TaskPlan
plan = record { goal = "a survey"; steps = search_step ∷ [] }

abbrev passed : ReviewResult
passed = record { status = pass; issues = []; suggested_steps = [] }

abbrev change_run : (Run → Run) → Flow (Unit {0})
change_run f = modify (λ (w : World). record w { run = f w.run })

-- Agents that succeed at once.
abbrev agents : Agents
agents = record {
  remember = pure tt;
  planner = change_run (λ run. record run { plan = some plan });
  step = λ step.
      change_run (λ run. record run {
        results = put run.results step.id (("status", text "succeeded") ∷ []);
      });
  quality = pure tt;
  reviewer = change_run (λ run. record run { review = some passed });
  replanner = pure tt;
  rules = pure false;
  writer = change_run (λ run. record run { answer = some "report" });
}

abbrev idle_agents : Agents
idle_agents = record agents { writer = pure tt }

abbrev lease : Claim
lease = record { task_id = "t"; owner = "w"; generation = 1 }

abbrev world : World
world = record { run = restore survey [] 0 2; db = claimed_db }

unit-Edge_example : Ensures Anything (unit 2 lease agents reviewer) (λ next w. Edge w reviewer next)
unit-Edge_example = unit-Edge 2 lease agents reviewer

abbrev planned : World
planned = (unit 2 lease agents planner world).1

planned_ok : unit 2 lease agents planner world ≡ (ok executor, planned)
unfolding unit
planned_ok = refl

abbrev executed : World
executed = (unit 2 lease agents executor planned).1

executed_ok : unit 2 lease agents executor planned ≡ (ok reviewer, executed)
unfolding unit run_executor work_on persist_budget plan_steps next_stage after_execution ready_step
    consume charge check journal lift merge_spent journal_calls claim claim_row first_claimable
    enqueue find_key get checkpoint event put set_status locked fence write_job merge_usage restore
executed_ok = refl

abbrev reviewed : World
reviewed = (unit 2 lease agents reviewer executed).1

reviewed_ok : unit 2 lease agents reviewer executed ≡ (ok writer, reviewed)
unfolding unit after_verdict after_review
reviewed_ok = refl

abbrev written : World
written = (unit 2 lease agents writer reviewed).1

written_ok : unit 2 lease agents writer reviewed ≡ (ok done, written)
unfolding unit
written_ok = refl

abbrev whole : Units planner done
whole =
    next writer done
      (next reviewer writer
        (next executor reviewer
          (next planner executor (start planner refl) 2 lease agents world planned planned_ok) 2
          lease agents planned executed executed_ok)
        2 lease agents executed reviewed reviewed_ok)
      2 lease agents reviewed written written_ok

units-WasPassed_example : WasPassed planner done whole
units-WasPassed_example = units-WasPassed whole

abbrev pub clock : Clock
clock = record {
  restored = 2;
  reconciled = 2;
  checked = 2;
  gated = 2;
  begun = 2;
  worked = 3;
  saved = 3;
}

abbrev pub worker : Worker
worker = record {
  digest = digest_of;
  operation_digest = λ operation. operation.step_id;
  validators = record { argument_digest = λ result. result.output; is_valid = λ tool result. true };
  files = record {
    source_digest = λ source. "d";
    source_snapshot = λ child. err "workspace_not_found";
  };
  records = record { attempts = []; plans = []; reviews = []; tool_calls = [] };
  limits = default_limits;
  approval_threshold = 20000;
  render = λ run. "draft";
  learn = λ run db. db;
}

abbrev calling : Db
calling = record claimed_db { jobs = ("t", calling_job) ∷ [] }

caught-IsConcluded_example :
    IsCaught survey claimed_job
      (attempt worker clock lease agents survey claimed_job world).0
      (caught planner (attempt worker clock lease agents survey claimed_job) world).0
caught-IsConcluded_example = caught-IsConcluded worker clock lease agents survey claimed_job world

agents-AreCareful : AreCareful agents
agents-AreCareful = record {
  remember = λ w i. i;
  planner = λ w i. i;
  step = λ step w i. i;
  quality = λ w i. i;
  reviewer = λ w i. i;
  replanner = λ w i. i;
  rules = λ w i. i;
  writer = λ w i. i;
}

execute-IsIntegral_example : IsIntegral (execute worker clock lease agents claimed_db).1
execute-IsIntegral_example =
    execute-IsIntegral worker clock lease agents claimed_db agents-AreCareful (λ run db i. i)
      claimed-IsIntegral
