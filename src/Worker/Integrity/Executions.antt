-- ===== src/Worker/Integrity/Executions.antt =====
-- orchestration/durable.py, `_execute`: whatever a unit comes to, the database stays integral.
use auto_scholar.Prelude.{
  ℕ, ◌-◌, min, String, Bool, false, not, Option, none, some, [], ◌∷◌, ◌≡◌, refl, is_empty,
  if◌then◌else◌,
}
use auto_scholar.Prelude.Table.{Table}
use auto_scholar.Prelude.Result.{Result, ok, err, pure, ◌>>=◌}
use auto_scholar.Budget.{check, is_late}
use auto_scholar.Plan.{PlanStep}
use auto_scholar.Snapshot.{Value, Snapshot, Stage, text, number}
use auto_scholar.Runs.{Run, capture}
use auto_scholar.Durable.Rows.{
  Status, succeeded, queued, cancelled, paused, awaiting_approval, recovery_required, is_leased,
  WorkflowJobRow,
}
use auto_scholar.Durable.Session.{Session}
use auto_scholar.Durable.Work.{begin, is_running, is_cancel_requested}
use auto_scholar.Durable.Save.{save, is_pause_requested, stage_text}
use auto_scholar.Durable.Recovery.{reconcile_calls}
use auto_scholar.Durable.Approvals.{gate, operation}
use auto_scholar.Durable.Integrity.Works.{begin-IsIntegral}
use auto_scholar.Durable.Integrity.Saves.{save-IsIntegral}
use auto_scholar.Durable.Integrity.Gates.{gate-IsIntegral}
use auto_scholar.Durable.Integrity.Recoveries.{reconcile_calls-IsIntegral}
use auto_scholar.Worker.{World, Failure, over_budget, Agents, Claim, Clock, on_db, on_budget}
use auto_scholar.Worker.Unit.{next_step}
use auto_scholar.Worker.Reconcile.{reconcile}
use auto_scholar.Worker.Attempts.{
  Worker, concluded, suspended, save_run, ask_approval, needs_approval, view_of, operation_field,
  step_fields, step_field, prepend, executor_fields, unit_fields, is_executor, start, timed_unit,
  begin_unit, new_unit, settle, reconciled, attempt, is_done, invalid,
}
use auto_scholar.Worker.Integrity.{
  Steady, Anyway, AreCareful, Steady-keeps, Steady-pure, Steady-if, Stays-on_db, Steady-bind,
}
use auto_scholar.Worker.Integrity.Units.{
  read_only, refuses, lifts, plan_steps-Steady, unit-Steady, reconcile-Steady,
  verify_sources-Steady,
}

module _ (w : Worker) (clock : Clock) (claim : Claim) where
  pub save_run-Steady :
      (now : ℕ) (s : Snapshot) (stage : Stage) (status : Status) (code : Option String)
      → is_leased status ≡ false
      → Steady (save_run w now claim s stage status code) Anyway
  unfolding save_run
  save_run-Steady now s stage status code free =
      Steady-bind (read_only (λ (world : World). world.run)) (λ run _.
        Steady-bind
          (lifts (elim (capture s run stage) as (λ _. Result Failure Snapshot) [
            | none ↦ err invalid
            | some c ↦ ok c
          ]))
          (λ captured _.
            let write : Session (Unit {0}) =
              save w.digest now claim.task_id claim.owner claim.generation captured run.budget.used
                (now - run.budget.started) status code in
            Steady-keeps (on_db write) (
              Stays-on_db write (
                save-IsIntegral w.digest now claim.task_id claim.owner claim.generation captured
                  run.budget.used (now - run.budget.started) status code free))))

  ask_approval-Steady :
      (s : Snapshot) (run : Run) (step : PlanStep)
      → Steady (ask_approval w clock claim s run step) Anyway
  unfolding ask_approval
  ask_approval-Steady s run step =
      let ask : Session Bool =
        gate w.files.source_digest w.operation_digest clock.gated (view_of s run) step claim.owner
          claim.generation in
      Steady-if (needs_approval (min s.approval_threshold w.approval_threshold) run step)
        (Steady-bind
          (Steady-keeps (on_db ask) (
            Stays-on_db ask (
              gate-IsIntegral w.files.source_digest w.operation_digest clock.gated (view_of s run)
                step claim.owner claim.generation)))
          (λ allowed _.
            Steady-pure Anyway
              (if allowed
                then some (operation_field w (operation w.files.source_digest (view_of s run) step))
                else none)
              tt))
        (Steady-pure Anyway (some []) tt)

  step_fields-Steady :
      (s : Snapshot) (run : Run) (ready : Option PlanStep)
      → Steady (step_fields w clock claim s run ready) Anyway
  unfolding step_fields
  step_fields-Steady s run none = Steady-pure Anyway (some []) tt
  step_fields-Steady s run (some step) =
      Steady-bind (ask_approval-Steady s run step)
        (λ asked _. Steady-pure Anyway (prepend (step_field step) asked) tt)

  executor_fields-Steady :
      (s : Snapshot) (world : World) → Steady (executor_fields w clock claim s world) Anyway
  unfolding executor_fields
  executor_fields-Steady s world =
      Steady-bind (plan_steps-Steady world.run.plan)
        (λ _ _. step_fields-Steady s world.run (next_step world))

  unit_fields-Steady :
      (s : Snapshot) (stage : Stage) → Steady (unit_fields w clock claim s stage) Anyway
  unfolding unit_fields
  unit_fields-Steady s stage = Steady-bind (read_only (λ (world : World). world)) (λ world _.
      Steady-bind
        (Steady-if (is_executor stage) (executor_fields-Steady s world)
          (Steady-pure Anyway (some []) tt))
        (λ asked _.
          Steady-pure Anyway
            (prepend
              (("stage", text (stage_text stage)) ∷ ("version", number world.run.version) ∷ [])
              asked)
            tt))

  module _ (agents : Agents) (careful : AreCareful agents) where
    timed_unit-Steady : (stage : Stage) → Steady (timed_unit clock claim agents stage) Anyway
    unfolding timed_unit
    timed_unit-Steady stage =
        Steady-bind (unit-Steady clock.begun claim agents careful stage) (λ next _.
          Steady-bind (read_only (λ (world : World). world.run.budget)) (λ budget _.
            Steady-bind (refuses (is_late clock.worked budget) over_budget)
              (λ _ _. Steady-pure Anyway next tt)))

    start-Steady :
        (stage : Stage) (state : Status) → Steady (start clock claim agents stage state) Anyway
    unfolding start
    start-Steady stage state =
        Steady-if (is_running state)
          (Steady-bind (timed_unit-Steady stage) (λ next _.
            Steady-pure Anyway (concluded (if is_done next then succeeded else queued) none next)
              tt))
          (Steady-pure Anyway
            (concluded (if is_cancel_requested state then cancelled else paused) none stage) tt)

    begin_unit-Steady :
        (s : Snapshot) (active : Option (Table Value))
        → Steady (begin_unit w clock claim agents s active) Anyway
    unfolding begin_unit
    begin_unit-Steady s none =
        Steady-bind (save_run-Steady clock.gated s s.stage awaiting_approval none refl)
          (λ _ _. Steady-pure Anyway suspended tt)
    begin_unit-Steady s (some active) =
        let claimed : Session Status =
          begin clock.begun claim.task_id claim.owner claim.generation active in
        Steady-bind
          (Steady-keeps (on_db claimed) (
            Stays-on_db claimed
              (begin-IsIntegral clock.begun claim.task_id claim.owner claim.generation active)))
          (λ state _. start-Steady s.stage state)

    new_unit-Steady : (s : Snapshot) → Steady (new_unit w clock claim agents s) Anyway
    unfolding new_unit
    new_unit-Steady s = Steady-bind (verify_sources-Steady w.files) (λ _ _.
        Steady-bind (Steady-keeps (on_budget (check clock.checked)) (λ world i. i)) (λ _ _.
          Steady-bind (unit_fields-Steady s s.stage) (λ active _. begin_unit-Steady s active)))

    recovered-Steady :
        (active : Table Value)
        → Steady (do next ← reconcile w.files w.records active; pure (reconciled next)) Anyway
    recovered-Steady active =
        Steady-bind (reconcile-Steady w.files w.records active)
          (λ next _. Steady-pure Anyway (reconciled next) tt)

    settle-Steady :
        (active : Table Value) (stage : Stage) (pending : Table String)
        → Steady (settle w active stage pending) Anyway
    unfolding settle
    settle-Steady active stage pending = Steady-if (is_empty pending) (recovered-Steady active) (
        Steady-pure Anyway (concluded recovery_required (some "external_result_uncertain") stage)
          tt)

    pub attempt-Steady :
        (s : Snapshot) (job : WorkflowJobRow) → Steady (attempt w clock claim agents s job) Anyway
    unfolding attempt
    attempt-Steady s job =
        let read : Session (Table String) =
          reconcile_calls w.validators clock.reconciled claim.task_id
            (some (claim.owner, claim.generation)) none in
        Steady-if (is_cancel_requested job.status)
          (Steady-pure Anyway (concluded cancelled none s.stage) tt)
          (Steady-if (not (is_empty job.pending_calls))
            (Steady-bind
              (Steady-keeps (on_db read) (
                Stays-on_db read (
                  reconcile_calls-IsIntegral w.validators clock.reconciled claim.task_id
                    (some (claim.owner, claim.generation)) none)))
              (λ pending _. settle-Steady job.active s.stage pending))
            (Steady-if (not (is_empty job.active)) (recovered-Steady job.active) (
              Steady-if (is_pause_requested job.status)
                (Steady-pure Anyway (concluded paused none s.stage) tt) (new_unit-Steady s))))
