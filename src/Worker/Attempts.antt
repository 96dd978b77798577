-- ===== src/Worker/Attempts.antt =====
-- orchestration/durable.py, `_execute`: the `try` block, which settles an interrupted unit or begins a new one.
use auto_scholar.Prelude.{
  ℕ, ◌-◌, min, leb, String, Bool, true, false, not, ◌&&◌, Option, none, some, [], ◌∷◌, ◌++◌, all,
  is_empty, if◌then◌else◌,
}
use auto_scholar.Prelude.Table.{Table, get}
use auto_scholar.Prelude.Result.{ok, err, pure, gets, refuse_if, ◌>>=◌, ◌>>◌}
use auto_scholar.Budget.{BudgetLimits, check, is_late}
use auto_scholar.Plan.{PlanStep, is_experiment, cost_units}
use auto_scholar.Snapshot.{Value, text, number, Snapshot, Stage, executor, done}
use auto_scholar.Runs.{Run, capture}
use auto_scholar.Durable.Rows.{
  Status, queued, paused, awaiting_approval, recovery_required, succeeded, cancelled, Operation,
  WorkflowJobRow, Db,
}
use auto_scholar.Durable.Work.{begin, is_cancel_requested, is_running}
use auto_scholar.Durable.Save.{save, stage_text, is_pause_requested}
use auto_scholar.Durable.Recovery.{reconcile_calls}
use auto_scholar.Durable.Receipts.{Validators}
use auto_scholar.Durable.Approvals.{gate, operation}
use auto_scholar.Worker.{
  Flow, World, Failure, over_budget, no_code, on_db, on_budget, Files, Agents, Claim, Clock,
  is_text,
}
use auto_scholar.Worker.Unit.{unit, next_step, plan_steps}
use auto_scholar.Worker.Reconcile.{Records, reconcile, verify_sources, lift}

-- The worker, and what it takes from outside: the digests, the receipts' validators, the files, the
-- records of the task, the rendering of a draft and what is learned of a success.
pub record Worker : Type 0 where
  pub digest : Snapshot → String
  pub operation_digest : Operation → String
  pub validators : Validators
  pub files : Files
  pub records : Records
  pub limits : BudgetLimits
  pub approval_threshold : ℕ
  pub render : Run → String
  pub learn : Run → Db → Db

-- How the `try` block ends: with a status, a code and a stage for `save`, or having saved already.
pub data Attempt : Type 0 where
  concluded : Status → Option String → Stage → Attempt
  suspended : Attempt

-- The fields of the run that an approval is bound to.
abbrev pub view_of : Snapshot → Run → Snapshot
view_of s run = record s {
  version = run.version;
  specification = run.specification;
  limits = run.budget.limits;
  sources = run.sources;
}

-- An experiment, ready with inputs that succeeded, whose cost reaches the threshold.
unfoldable pub needs_approval : ℕ → Run → PlanStep → Bool
needs_approval threshold run step =
    is_experiment step.kind
    && all
        (λ key. elim (get run.results key) [
          | none ↦ false
          | some r ↦ is_text (get r "status") "succeeded"
        ])
        step.dependencies
    && leb threshold (cost_units run.specification)

abbrev pub invalid : Failure
invalid = no_code

-- `snapshot.capture(run, stage)` and `repository.save`.
unfoldable pub save_run :
    Worker → ℕ → Claim → Snapshot → Stage → Status → Option String → Flow (Unit {0})
save_run w now claim s stage status code = do
  run ← gets (λ (world : World). world.run)
  captured ← lift (elim (capture s run stage) [ none ↦ err invalid | some c ↦ ok c ])
  on_db (
      save w.digest now claim.task_id claim.owner claim.generation captured run.budget.used
        (now - run.budget.started) status code)

abbrev pub operation_field : Worker → Option Operation → Table Value
operation_field w none = []
operation_field w (some o) = ("operation_sha256", text (w.operation_digest o)) ∷ []

-- The fields of `active` for the executor's next step; `none` when the gate is shut.
unfoldable pub ask_approval :
    Worker → Clock → Claim → Snapshot → Run → PlanStep → Flow (Option (Table Value))
unfolding needs_approval
ask_approval w clock claim s run step =
    if needs_approval (min s.approval_threshold w.approval_threshold) run step
    then (do
      allowed ← on_db (
          gate w.files.source_digest w.operation_digest clock.gated (view_of s run) step claim.owner
            claim.generation)
      pure (
          if allowed
          then some (operation_field w (operation w.files.source_digest (view_of s run) step))
          else none))
    else pure (some [])

abbrev pub step_field : PlanStep → Table Value
step_field step = ("step_id", text step.id) ∷ []

abbrev pub prepend : Table Value → Option (Table Value) → Option (Table Value)
prepend fields none = none
prepend fields (some more) = some (fields ++ more)

unfoldable pub step_fields :
    Worker → Clock → Claim → Snapshot → Run → Option PlanStep → Flow (Option (Table Value))
unfolding ask_approval
step_fields w clock claim s run none = pure (some [])
step_fields w clock claim s run (some step) = do
  asked ← ask_approval w clock claim s run step
  pure (prepend (step_field step) asked)

abbrev pub is_executor : Stage → Bool
is_executor executor = true
is_executor _ = false

-- Past `assert run.plan is not None`.
unfoldable pub executor_fields :
    Worker → Clock → Claim → Snapshot → World → Flow (Option (Table Value))
unfolding step_fields
executor_fields w clock claim s world = do
  plan_steps world.run.plan
  step_fields w clock claim s world.run (next_step world)

-- `active`, or `none` for a step that waits for its approval.
unfoldable pub unit_fields : Worker → Clock → Claim → Snapshot → Stage → Flow (Option (Table Value))
unfolding executor_fields
unit_fields w clock claim s stage = do
  world ← gets (λ (world : World). world)
  asked ← (if is_executor stage then executor_fields w clock claim s world else pure (some []))
  pure (
      prepend (("stage", text (stage_text stage)) ∷ ("version", number world.run.version) ∷ [])
        asked)

abbrev pub is_done : Stage → Bool
is_done done = true
is_done _ = false

-- `asyncio.timeout` over the unit: what is left of the wall clock has passed when the unit ends.
unfoldable pub timed_unit : Clock → Claim → Agents → Stage → Flow Stage
timed_unit clock claim agents stage = do
  next ← unit clock.begun claim agents stage
  budget ← gets (λ (w : World). w.run.budget)
  refuse_if (is_late clock.worked budget) over_budget
  pure next

-- After `begin`.
unfoldable pub start : Clock → Claim → Agents → Stage → Status → Flow Attempt
unfolding timed_unit
start clock claim agents stage state =
    if is_running state
    then (do
      next ← timed_unit clock claim agents stage
      pure (concluded (if is_done next then succeeded else queued) none next))
    else pure (concluded (if is_cancel_requested state then cancelled else paused) none stage)

unfoldable pub begin_unit :
    Worker → Clock → Claim → Agents → Snapshot → Option (Table Value) → Flow Attempt
unfolding start save_run
begin_unit w clock claim agents s none = do
  save_run w clock.gated claim s s.stage awaiting_approval none
  pure suspended
begin_unit w clock claim agents s (some active) = do
  state ← on_db (begin clock.begun claim.task_id claim.owner claim.generation active)
  start clock claim agents s.stage state

unfoldable pub new_unit : Worker → Clock → Claim → Agents → Snapshot → Flow Attempt
unfolding begin_unit unit_fields
new_unit w clock claim agents s = do
  verify_sources w.files
  on_budget (check clock.checked)
  active ← unit_fields w clock claim s s.stage
  begin_unit w clock claim agents s active

abbrev pub reconciled : Stage → Attempt
reconciled stage = concluded queued none stage

-- A unit that was interrupted, with the calls that are still open.
unfoldable pub settle : Worker → Table Value → Stage → Table String → Flow Attempt
settle w active stage pending =
    if is_empty pending
    then (do next ← reconcile w.files w.records active; pure (reconciled next))
    else pure (concluded recovery_required (some "external_result_uncertain") stage)

-- The `try` block.
unfoldable pub attempt : Worker → Clock → Claim → Agents → Snapshot → WorkflowJobRow → Flow Attempt
unfolding settle new_unit
attempt w clock claim agents s job =
    if is_cancel_requested job.status
    then pure (concluded cancelled none s.stage)
    else if not (is_empty job.pending_calls)
    then (do
      pending ← on_db (
          reconcile_calls w.validators clock.reconciled claim.task_id
            (some (claim.owner, claim.generation)) none)
      settle w job.active s.stage pending)
    else if not (is_empty job.active)
    then (do next ← reconcile w.files w.records job.active; pure (reconciled next))
    else if is_pause_requested job.status
    then pure (concluded paused none s.stage)
    else new_unit w clock claim agents s
