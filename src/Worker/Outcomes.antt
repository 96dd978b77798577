-- ===== src/Worker/Outcomes.antt =====
-- orchestration/durable.py, `_execute`: what a workflow is saved with.
use auto_scholar.Prelude.{
  String, Bool, true, false, not, ◌||◌, Option, none, some, [], ◌∷◌, ◌≡◌, ◌≢◌, refl, inl, inr, ◌⊎◌,
  is_empty, Bool-cases, if◌then◌else◌, str_eq,
}
use auto_scholar.Prelude.Table.{Table}
use auto_scholar.Prelude.Result.{Result, ok, err, pure, ◌>>=◌}
use auto_scholar.Prelude.Ensures.{
  After, Ensures, Ensures-bind, Ensures-pure, Ensures-weaken, Ensures-if, Ensures-gets,
  Ensures-refuse_if,
}
use auto_scholar.Snapshot.{
  Value, Snapshot, Stage, planner, executor, quality, reviewer, replanner, writer, done,
}
use auto_scholar.Budget.{check, is_late}
use auto_scholar.Durable.Rows.{
  Status, queued, paused, awaiting_approval, recovery_required, succeeded, cancelled, is_leased,
  WorkflowJobRow,
}
use auto_scholar.Durable.Work.{begin, is_cancel_requested, is_running}
use auto_scholar.Durable.Save.{is_pause_requested}
use auto_scholar.Durable.Recovery.{reconcile_calls}
use auto_scholar.Worker.{
  World, Failure, over_budget, interrupted, lost, raised, Agents, Claim, Clock, on_db, on_budget,
}
use auto_scholar.Worker.Reviewed.{into_done}
use auto_scholar.Worker.Stages.{Edge, unit-Edge, Anything, some_flow}
use auto_scholar.Worker.Reconcile.{reconcile, verify_sources}
use auto_scholar.Worker.Execute.{except, caught}
use auto_scholar.Worker.Attempts.{
  Worker, Attempt, concluded, suspended, start, timed_unit, begin_unit, new_unit, settle, attempt,
  is_done, reconciled, save_run, unit_fields,
}

-- The job was free to be worked on.
abbrev pub IsFree : WorkflowJobRow → Type 0
IsFree job =
    (job.active ≡ [])
    × (job.pending_calls ≡ [])
    × (is_cancel_requested job.status ≡ false)
    × (is_pause_requested job.status ≡ false)

-- A success comes from the writer, or from a workflow that had ended, and never from recovery; no
-- conclusion leaves the job leased.
abbrev pub IsFounded : Stage → Attempt → Type 0
IsFounded stage suspended = Unit
IsFounded stage (concluded status code next) =
    (is_leased status ≡ false)
    × (status ≡ succeeded → (code ≡ none) × (next ≡ done) × ((stage ≡ writer) ⊎ (stage ≡ done)))

-- A conclusion that is no success.
abbrev IsUnearned : Attempt → Type 0
IsUnearned suspended = ⊥
IsUnearned (concluded status code next) = (is_leased status ≡ false) × (status ≢ succeeded)

-- Both together; a workflow is suspended for an approval only if it was free to be worked on.
abbrev pub IsConcluded : Snapshot → WorkflowJobRow → Attempt → Type 0
IsConcluded s job suspended = IsFree job
IsConcluded s job (concluded status code next) =
    (is_leased status ≡ false)
    × (status ≡ succeeded
        → (code ≡ none) × (next ≡ done) × ((s.stage ≡ writer) ⊎ (s.stage ≡ done)) × IsFree job)

unearned : (s : Snapshot) (job : WorkflowJobRow) (a : Attempt) → IsUnearned a → IsConcluded s job a
unearned s job suspended q = absurd q
unearned s job (concluded status code next) (free, differs) = (free, λ h. absurd (differs h))

earned :
    (s : Snapshot) (job : WorkflowJobRow) (a : Attempt)
    → IsFounded s.stage a
    → IsFree job
    → IsConcluded s job a
earned s job suspended q f = f
earned s job (concluded status code next) (free, founded) f =
    (free, λ h. let q = founded h in (q.0, q.1, q.2, f))

nothing_left : {V : Type 0} (t : Table V) → not (is_empty t) ≡ false → t ≡ []
nothing_left [] h = refl
nothing_left (x ∷ t) h = absurd (cc)

except-IsUnearned :
    (stage : Stage) (e : Failure) (w : World) → After (λ a _. IsUnearned a) (except stage e, w)
unfolding except
except-IsUnearned stage over_budget w = (refl, λ h. cc)
except-IsUnearned stage interrupted w = (refl, λ h. cc)
except-IsUnearned stage lost w = tt
except-IsUnearned stage (raised code) w = elim (Bool-cases (str_eq code "approval_required")) [
  | inl asks ↦ rw asks (refl, λ h. cc)
  | inr other ↦
      elim (Bool-cases
        (str_eq code "operation_uncertain" || str_eq code "checkpoint_integrity_failed")) [
          | inl unsure ↦ rw (other, unsure) (refl, λ h. cc)
          | inr plain ↦ rw (other, plain) (refl, λ h. cc)
        ]
]

except-IsConcluded :
    (s : Snapshot) (job : WorkflowJobRow) (e : Failure) (w : World)
    → After (λ a _. IsConcluded s job a) (except s.stage e, w)
except-IsConcluded s job e w = weaken (except s.stage e, w) (except-IsUnearned s.stage e w)
  where
    weaken :
        (out : Result Failure Attempt × World)
        → After (λ a _. IsUnearned a) out
        → After (λ a _. IsConcluded s job a) out
    weaken (ok a, after) q = unearned s job a q
    weaken (err e, after) q = tt

ended-IsFounded :
    (stage next : Stage) (w : World)
    → Edge w stage next
    → IsFounded stage (concluded (if is_done next then succeeded else queued) none next)
ended-IsFounded stage done w e = (refl, λ _. (refl, refl, into_done w stage done e refl))
ended-IsFounded stage planner w e = (refl, λ h. absurd (cc))
ended-IsFounded stage executor w e = (refl, λ h. absurd (cc))
ended-IsFounded stage quality w e = (refl, λ h. absurd (cc))
ended-IsFounded stage reviewer w e = (refl, λ h. absurd (cc))
ended-IsFounded stage replanner w e = (refl, λ h. absurd (cc))
ended-IsFounded stage writer w e = (refl, λ h. absurd (cc))

module _ (clock : Clock) (claim : Claim) (agents : Agents) where
  timed_unit-Edge :
      (stage : Stage)
      → Ensures Anything (timed_unit clock claim agents stage) (λ next w. Edge w stage next)
  unfolding timed_unit
  timed_unit-Edge stage = Ensures-bind (unit-Edge clock.begun claim agents stage) (λ next.
      Ensures-bind (Ensures-gets (λ (w : World). w.run.budget) (λ w e. e)) (λ budget.
        Ensures-bind (Ensures-refuse_if (is_late clock.worked budget) over_budget)
          (λ _. Ensures-pure next (λ w (e, early). e))))

  stopped-IsFounded :
      (stage : Stage) (cancels : Bool)
      → IsFounded stage (concluded (if cancels then cancelled else paused) none stage)
  stopped-IsFounded stage true = (refl, λ h. absurd (cc))
  stopped-IsFounded stage false = (refl, λ h. absurd (cc))

  start-IsFounded :
      (stage : Stage) (state : Status)
      → Ensures Anything (start clock claim agents stage state) (λ a _. IsFounded stage a)
  unfolding start
  start-IsFounded stage state =
      Ensures-if (is_running state)
        (λ _. Ensures-bind (timed_unit-Edge stage) (λ next.
          Ensures-pure (concluded (if is_done next then succeeded else queued) none next)
            (λ w e. ended-IsFounded stage next w e)))
        (λ _.
          Ensures-pure
            (concluded (if is_cancel_requested state then cancelled else paused) none stage)
            (λ w _. stopped-IsFounded stage (is_cancel_requested state)))

  module _ (w : Worker) (s : Snapshot) where
    begin_unit-IsFounded :
        (active : Option (Table Value))
        → Ensures Anything (begin_unit w clock claim agents s active) (λ a _. IsFounded s.stage a)
    unfolding begin_unit
    begin_unit-IsFounded none =
        Ensures-bind (some_flow (save_run w clock.gated claim s s.stage awaiting_approval none))
          (λ _. Ensures-pure suspended (λ _ _. tt))
    begin_unit-IsFounded (some active) =
        Ensures-bind
          (some_flow (on_db (begin clock.begun claim.task_id claim.owner claim.generation active)))
          (λ state. start-IsFounded s.stage state)

    new_unit-IsFounded :
        Ensures Anything (new_unit w clock claim agents s) (λ a _. IsFounded s.stage a)
    unfolding new_unit
    new_unit-IsFounded = Ensures-bind (some_flow (verify_sources w.files)) (λ _.
        Ensures-bind (some_flow (on_budget (check clock.checked))) (λ _.
          Ensures-bind (some_flow (unit_fields w clock claim s s.stage))
            (λ active. begin_unit-IsFounded active)))

    recovered-IsUnearned :
        (active : Table Value)
        → Ensures Anything
            (do next ← reconcile w.files w.records active; pure (reconciled next))
            (λ a _. IsUnearned a)
    recovered-IsUnearned active =
        Ensures-bind (some_flow (reconcile w.files w.records active))
          (λ next. Ensures-pure (reconciled next) (λ _ _. (refl, λ h. cc)))

    settle-IsUnearned :
        (active : Table Value) (pending : Table String)
        → Ensures Anything (settle w active s.stage pending) (λ a _. IsUnearned a)
    unfolding settle
    settle-IsUnearned active pending =
        Ensures-if (is_empty pending) (λ _. recovered-IsUnearned active)
          (λ _.
            Ensures-pure (concluded recovery_required (some "external_result_uncertain") s.stage)
              (λ _ _. (refl, λ h. cc)))

    attempt-IsConcluded :
        (job : WorkflowJobRow)
        → Ensures Anything (attempt w clock claim agents s job) (λ a _. IsConcluded s job a)
    unfolding attempt
    attempt-IsConcluded job =
        Ensures-if (is_cancel_requested job.status)
          (λ _. Ensures-pure (concluded cancelled none s.stage) (λ _ _. (refl, λ h. absurd (cc))))
          (λ running.
            Ensures-if (not (is_empty job.pending_calls))
              (λ _.
                Ensures-weaken
                  (Ensures-bind
                    (some_flow (
                      on_db (
                        reconcile_calls w.validators clock.reconciled claim.task_id
                          (some (claim.owner, claim.generation)) none)))
                    (λ pending. settle-IsUnearned job.active pending))
                  (λ _ p. p) (λ a _ q. unearned s job a q))
              (λ settled.
                Ensures-if (not (is_empty job.active))
                  (λ _.
                    Ensures-weaken (recovered-IsUnearned job.active) (λ _ p. p)
                      (λ a _ q. unearned s job a q))
                  (λ ended.
                    Ensures-if (is_pause_requested job.status)
                      (λ _.
                        Ensures-pure (concluded paused none s.stage)
                          (λ _ _. (refl, λ h. absurd (cc))))
                      (λ going.
                        Ensures-weaken new_unit-IsFounded (λ _ p. p)
                          (λ a _ q. earned s job a q (
                            nothing_left job.active ended,
                            nothing_left job.pending_calls settled,
                            running,
                            going,
                          ))))))

-- An outcome with an error code, at the stage, which is no success and leaves the job to no worker.
abbrev IsFailure : Stage → Result Failure Attempt → Type 0
IsFailure stage out =
    (status : Status) × (code : String) × (out ≡ ok (concluded status (some code) stage))
    × (is_leased status ≡ false)
    × (status ≢ succeeded)

-- A unit that returns is what its agents made of it; one that raises is concluded as no success, with an
-- error code and at its own stage; only the loss of the lease is raised again.
abbrev pub IsCaught :
    Snapshot → WorkflowJobRow → Result Failure Attempt → Result Failure Attempt → Type 0
IsCaught s job (ok a) out = (out ≡ ok a) × IsConcluded s job a
IsCaught s job (err lost) out = out ≡ err lost
IsCaught s job (err over_budget) out = IsFailure s.stage out
IsCaught s job (err interrupted) out = IsFailure s.stage out
IsCaught s job (err (raised code)) out = IsFailure s.stage out

except-IsFailure : (stage : Stage) (code : String) → IsFailure stage (except stage (raised code))
unfolding except
except-IsFailure stage code = elim (Bool-cases (str_eq code "approval_required")) [
  | inl asks ↦ rw asks (_, _, refl, refl, λ h. absurd (cc))
  | inr other ↦
      elim (Bool-cases
        (str_eq code "operation_uncertain" || str_eq code "checkpoint_integrity_failed")) [
          | inl unsure ↦ rw (other, unsure) (_, _, refl, refl, λ h. absurd (cc))
          | inr plain ↦ rw (other, plain) (_, _, refl, refl, λ h. absurd (cc))
        ]
]

except-IsCaught :
    (s : Snapshot) (job : WorkflowJobRow) (e : Failure) → IsCaught s job (err e) (except s.stage e)
unfolding except
except-IsCaught s job over_budget = (_, _, refl, refl, λ h. absurd (cc))
except-IsCaught s job interrupted = (_, _, refl, refl, λ h. absurd (cc))
except-IsCaught s job lost = refl
except-IsCaught s job (raised code) = except-IsFailure s.stage code

pub outcome-IsConcluded :
    (w : Worker) (clock : Clock) (claim : Claim) (agents : Agents) (s : Snapshot)
    (job : WorkflowJobRow) (world : World)
    → After (λ a _. IsConcluded s job a) (caught s.stage (attempt w clock claim agents s job) world)
unfolding caught
outcome-IsConcluded w clock claim agents s job world =
    kept (attempt w clock claim agents s job world)
      ((attempt-IsConcluded clock claim agents w s job).holds world tt)
  where
    kept :
        (out : Result Failure Attempt × World)
        → After (λ a _. IsConcluded s job a) out
        → After
            (λ a _. IsConcluded s job a)
            (elim out.0 as (λ _. Result Failure Attempt × World) [
              | ok a ↦ (ok a, out.1)
              | err e ↦ (except s.stage e, out.1)
            ])
    kept (ok a, after) q = q
    kept (err e, after) q = except-IsConcluded s job e after

-- However its agents fail, a unit of a claimed workflow is concluded, unless the lease is lost. If the unit
-- returns an outcome, that is the outcome; if it raises anything but the loss of the lease, the outcome is
-- an error code, the stage it had, and a status that is not succeeded and leaves the job to no worker. A
-- returned outcome also leaves the job to no worker; it is a success only if the workflow was at its
-- writer, or had ended, no unit was unfinished, no call open and no stop or pause asked for, and then
-- it has no error code; and it suspends the workflow only under those last conditions.
pub caught-IsConcluded :
    (w : Worker) (clock : Clock) (claim : Claim) (agents : Agents) (s : Snapshot)
    (job : WorkflowJobRow) (world : World)
    → IsCaught s job
        (attempt w clock claim agents s job world).0
        (caught s.stage (attempt w clock claim agents s job) world).0
unfolding caught
caught-IsConcluded w clock claim agents s job world =
    kept (attempt w clock claim agents s job world)
      ((attempt-IsConcluded clock claim agents w s job).holds world tt)
  where
    kept :
        (out : Result Failure Attempt × World)
        → After (λ a _. IsConcluded s job a) out
        → IsCaught s job out.0
            (elim out.0 as (λ _. Result Failure Attempt × World) [
              | ok a ↦ (ok a, out.1)
              | err e ↦ (except s.stage e, out.1)
            ]).0
    kept (ok a, after) q = (refl, q)
    kept (err e, after) q = except-IsCaught s job e
